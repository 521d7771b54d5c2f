-- ===== src/Tests/Agents.antt =====
-- An agent with two identities, one of which is removed.
use mathlib.Core.List.{Mem, Nodup-nil, Nodup-cons, not-mem-nil, eq-or-mem_of_mem-cons}
use mathlib.Core.Logic.Or
use mathlib.Core.HLevel.{⊥_prop}
use ssh_1_history.Prelude.{
  ◌≡◌, ◌⊎◌, refl, true, false, List, [], ◌∷◌, ◌++◌, map, some, ok, Ensures, arith, replicate,
}
use ssh_1_history.Bufaux.MpInt.{get_mp_int, put_16bit, pack, to_bytes}
use ssh_1_history.Bufaux.{put_32bit}
use ssh_1_history.Bufaux.MpInt.RoundTrip.{mp_bytes, get_mp_int-mp_bytes}
use ssh_1_history.Bufaux.MpInt.Instances.{Small, none_at_all, one, two, three, small}
use ssh_1_history.Agent.{has_key, until_null, Identity, Decryptor, process_message}
use ssh_1_history.Agent.Client
use ssh_1_history.Agent.Client.{framed, list_identities, add_message}
use ssh_1_history.Agent.Wire.{FitsWire, Short, public}
use ssh_1_history.Agent.Distinct.{Distinct, Without, moduli}
use ssh_1_history.Agent.Safety.{process_message-Distinct}
use ssh_1_history.Agent.Exchange.{arrived, serve, after}
use ssh_1_history.Agent.Exchange.Adding.{added, add_bytes, add_identity-list_identities}
use ssh_1_history.Agent.Exchange.Removing.{remove_bytes, remove_identity-Without}

abbrev pub blank : Decryptor small
blank = record {
  private_decrypt = λ challenge k. some challenge;
  linearize_msb_first = λ n v. [];
  md5 = λ bytes. replicate 16 0;
  length-md5 = λ bytes. refl;
}

abbrev pub identity : Small → Identity small
identity n = record {
  bits = 2;
  n = n;
  e = one;
  d = one;
  u = one;
  p = one;
  q = one;
  comment = 97 ∷ [];
}

short : (n : Small) → Short small n
short none_at_all = omega arith
short one = omega arith
short two = omega arith
short three = omega arith

identity-FitsWire : (n : Small) → FitsWire (identity n)
identity-FitsWire n = record {
  bits = omega arith;
  n = short n;
  e = omega arith;
  d = omega arith;
  u = omega arith;
  p = omega arith;
  q = omega arith;
  comment = omega arith;
}

abbrev pub held : List (Identity small)
held = identity one ∷ identity two ∷ []

held-Distinct : Distinct held
held-Distinct = Nodup-cons.1 (
  λ m. Or.elim ⊥_prop (eq-or-mem_of_mem-cons m) (λ e. absurd cc) not-mem-nil,
  Nodup-cons.1 (not-mem-nil, Nodup-nil),
)

get_mp_int-mp_bytes_example :
    get_mp_int small (mp_bytes small two ++ (7 ∷ [])) none_at_all ≡ ok (two, 7 ∷ [])
get_mp_int-mp_bytes_example = get_mp_int-mp_bytes small two none_at_all (7 ∷ []) (omega arith)

process_message-Distinct_example :
    Ensures
      (λ a. Distinct a.0)
      (process_message blank held (arrived (framed (add_bytes (identity three)))))
process_message-Distinct_example =
    process_message-Distinct blank held (arrived (framed (add_bytes (identity three))))
      held-Distinct

add_identity-list_identities_example :
    (Client.add_identity (serve blank held) (identity three) ≡ ok true)
    × (add_message (identity three) ≡ ok (add_bytes (identity three)))
    × (list_identities (serve blank (after blank held (framed (add_bytes (identity three)))))
        ≡ ok (map public (added held (identity three))))
unfolding put_32bit put_16bit pack to_bytes has_key until_null
add_identity-list_identities_example =
    add_identity-list_identities blank held (identity three)
      (identity-FitsWire one, (identity-FitsWire two, tt)) (identity-FitsWire three) (omega arith)
      (omega arith) (omega arith)

remove_identity-Without_example :
    ((Client.remove_identity small (serve blank held) 2 one two ≡ ok true)
      × Without two held (after blank held (framed (remove_bytes small 2 one two)))
      × (Mem two (moduli (after blank held (framed (remove_bytes small 2 one two)))) → ⊥))
    ⊎ ((Client.remove_identity small (serve blank held) 2 one two ≡ ok false)
        × (after blank held (framed (remove_bytes small 2 one two)) ≡ held)
        × (Mem two (moduli held) → ⊥))
unfolding put_32bit put_16bit pack to_bytes has_key
remove_identity-Without_example =
    remove_identity-Without blank held 2 one two (omega arith) (omega arith) (omega arith)
      (omega arith) held-Distinct
