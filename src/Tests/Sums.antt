-- ===== src/Tests/Sums.antt =====
-- The check sum, the stream cipher, the patterns, the lists of patterns and the messages at concrete inputs.
use ssh_1_history.Prelude.{
  ℕ, not, ◌&&◌, ◌<◌, ◌≡◌, ◌≢◌, ◌↔◌, refl, true, false, List, [], ◌∷◌, ◌++◌, none, ok, err,
  too_many_bytes, arith, map, take, ap, length, length-append,
}
use ssh_1_history.Crc32.{crc32}
use ssh_1_history.Crc32.Table.{bitwise_from, crc32-eq-bitwise}
use ssh_1_history.Crc32.Detects.{crc32_detects_byte}
use ssh_1_history.Arcfour
use ssh_1_history.Arcfour.{ArcfourContext}
use ssh_1_history.Arcfour.Stream.{decrypt-encrypt}
use ssh_1_history.Arcfour.Permutation.{IsValid, init-IsValid, next_byte-IsValid}
use ssh_1_history.Match.{star, any_from, match_behind_star, match_pattern, match_user}
use ssh_1_history.Match.Glob.{Glob}
use ssh_1_history.Match.Complete.{match_pattern-Glob_iff}
use ssh_1_history.Match.Sound.{match_pattern_sound}
use ssh_1_history.Match.User.{subject, match_user-at_iff}
use ssh_1_history.Hostfile.{match_hostname}
use ssh_1_history.Hostfile.Patterns.{
  Entry, Fits, joined, some_match, some_excluded, match_hostname-joined,
}
use ssh_1_history.Bufaux.Words.{get_32bit-put_32bit}
use ssh_1_history.Bufaux.{put_32bit, get_32bit}
use ssh_1_history.Bufaux.Message.{
  Item, char, int, string, kind, put_items, get_items, encodings, put_items-encodings,
  get_items-put_items,
}
use ssh_1_history.Packet.Send.{length-put_32bit}
use ssh_1_history.Bufaux.Message.Truncated.{get_items_truncated}

abbrev greeting : List ℕ
greeting = b'h' ∷ b'i' ∷ []

crc32-eq-bitwise_example : crc32 greeting ≡ bitwise_from 0 greeting
crc32-eq-bitwise_example = crc32-eq-bitwise greeting (omega arith)

crc32_detects_byte_example : crc32 (greeting ++ (7 ∷ greeting)) ≢ crc32 (greeting ++ (9 ∷ greeting))
crc32_detects_byte_example =
    crc32_detects_byte greeting greeting 7 9 (omega arith) (omega arith) (omega arith) (omega arith)
      (omega arith)

abbrev key : List ℕ
key = 1 ∷ 2 ∷ 3 ∷ []

init-IsValid_example : (ctx : ArcfourContext) × (Arcfour.init key ≡ ok ctx) × IsValid ctx
init-IsValid_example = init-IsValid key (omega arith)

next_byte-IsValid_example :
    ((Arcfour.next_byte init-IsValid_example.0).0 < 256)
    × IsValid (Arcfour.next_byte init-IsValid_example.0).1
next_byte-IsValid_example = next_byte-IsValid init-IsValid_example.0 init-IsValid_example.2

abbrev small_context : ArcfourContext
small_context = record { state = 2 ∷ 0 ∷ 1 ∷ []; x = 0; y = 0 }

decrypt-encrypt_example :
    Arcfour.decrypt small_context (Arcfour.encrypt small_context greeting).0
    ≡ (greeting, (Arcfour.encrypt small_context greeting).1)
decrypt-encrypt_example = decrypt-encrypt small_context greeting

abbrev starts_with_h : List ℕ
starts_with_h = b'h' ∷ star ∷ []

match_pattern-Glob_iff_example :
    (match_pattern greeting starts_with_h ≡ true) ↔ Glob greeting starts_with_h
match_pattern-Glob_iff_example =
    match_pattern-Glob_iff greeting starts_with_h ((λ e. absurd (omega arith)), tt)

stars_match : match_pattern greeting (star ∷ star ∷ []) ≡ true
unfolding match_pattern match_behind_star any_from
stars_match = refl

match_pattern_sound_example : Glob greeting (star ∷ star ∷ [])
match_pattern_sound_example = match_pattern_sound greeting (star ∷ star ∷ []) stars_match

match_user-at_iff_example :
    (match_user greeting greeting none (starts_with_h ++ (b'@' ∷ starts_with_h)) ≡ true)
    ↔ (Glob greeting starts_with_h × Glob (subject greeting none starts_with_h) starts_with_h)
match_user-at_iff_example =
    match_user-at_iff greeting greeting none starts_with_h starts_with_h (omega arith)
      ((λ e. absurd (omega arith)), tt) ((λ e. absurd (omega arith)), tt)

get_32bit-put_32bit_example : get_32bit (put_32bit 0xdeadbeef) ≡ 0xdeadbeef
get_32bit-put_32bit_example = get_32bit-put_32bit 0xdeadbeef (omega arith)

abbrev items : List Item
items = char 7 ∷ int 100000 ∷ string greeting ∷ []

get_items-put_items_example :
    get_items (put_items [] items ++ greeting) (map kind items) ≡ ok (items, greeting)
get_items-put_items_example = get_items-put_items items greeting (omega arith)

get_items_truncated_example :
    get_items (take 4 (put_items [] items)) (map kind items) ≡ err too_many_bytes
get_items_truncated_example = get_items_truncated items 4 (omega arith) (
    omega (
      arith,
      ap length (put_items-encodings [] items),
      length-append (put_32bit 100000) (encodings (string greeting ∷ [])),
      length-put_32bit 100000,
    ))

-- The list `h*,!HX`.
abbrev admitted : Entry
admitted = record { negated = false; first = b'h'; others = b'*' ∷ [] }

abbrev excluded : Entry
excluded = record { negated = true; first = b'H'; others = b'X' ∷ [] }

admitted-Fits : Fits admitted
admitted-Fits = record {
  no_mark = λ e. absurd (omega arith);
  no_comma = ((λ e. absurd (omega arith)), ((λ e. absurd (omega arith)), tt));
  short = omega arith;
}

excluded-Fits : Fits excluded
excluded-Fits = record {
  no_mark = λ e. absurd (omega arith);
  no_comma = ((λ e. absurd (omega arith)), ((λ e. absurd (omega arith)), tt));
  short = omega arith;
}

match_hostname-joined_example :
    match_hostname greeting none (joined (admitted ∷ (excluded ∷ [])))
    ≡ ok (
        some_match greeting none (admitted ∷ (excluded ∷ []))
        && not (some_excluded greeting none (admitted ∷ (excluded ∷ []))))
match_hostname-joined_example =
    match_hostname-joined greeting none (admitted ∷ (excluded ∷ []))
      (admitted-Fits, (excluded-Fits, tt))
