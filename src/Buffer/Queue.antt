-- ===== src/Buffer/Queue.antt =====
-- What a `Buffer` promises: a queue of bytes, which only reading too much can fail.
use ssh_1_history.Prelude.{
  ℕ, ◌-◌, List, ◌++◌, Result, ok, err, too_many_bytes, length, take, drop, ltb, if◌then◌else◌,
}

abbrev pub Queue : Type 0
Queue = List ℕ

unfoldable pub append : Queue → List ℕ → Queue
append q bytes = q ++ bytes

unfoldable pub get : Queue → ℕ → Result (List ℕ × Queue)
get q n = if ltb (length q) n then err too_many_bytes else ok (take n q, drop n q)

unfoldable pub consume : Queue → ℕ → Result Queue
consume q n = if ltb (length q) n then err too_many_bytes else ok (drop n q)

unfoldable pub consume_end : Queue → ℕ → Result Queue
consume_end q n = if ltb (length q) n then err too_many_bytes else ok (take (length q - n) q)
