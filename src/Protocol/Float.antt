-- ===== src/Protocol/Float.antt =====
-- `f64` by its bit pattern, with the comparisons of Rust: a NaN equals nothing and is below nothing,
-- and the two zeros are equal.
use ling_xi_agent.Prelude.{
  ℕ, ◌%◌, ◌^◌, Bool, true, false, not, ◌&&◌, ◌||◌, ◌≡◌, refl, ltb, nat_eq, if◌then◌else◌,
}

abbrev pub F64 : Type 0
F64 = ℕ

abbrev magnitude : F64 → ℕ
magnitude bits = bits % 2 ^ 63

abbrev is_negative : F64 → Bool
is_negative bits = not (ltb bits (2 ^ 63))

abbrev is_nan : F64 → Bool
is_nan bits = ltb 0x7ff0000000000000 (magnitude bits)

abbrev both_zero : F64 → F64 → Bool
both_zero a b = nat_eq (magnitude a) 0 && nat_eq (magnitude b) 0

-- `a == b`
unfoldable pub f64_eq : F64 → F64 → Bool
f64_eq a b = not (is_nan a) && not (is_nan b) && (nat_eq a b || both_zero a b)

-- `a < b`
unfoldable pub f64_lt : F64 → F64 → Bool
f64_lt a b =
    if is_nan a || is_nan b || both_zero a b
    then false
    else if is_negative a
    then not (is_negative b) || ltb (magnitude b) (magnitude a)
    else not (is_negative b) && ltb (magnitude a) (magnitude b)

-- `value.is_finite()`
unfoldable pub is_finite : F64 → Bool
is_finite bits = ltb (magnitude bits) 0x7ff0000000000000

-- -1.5 < 0.2, and not the other way round
order_test :
    (f64_lt 0xbff8000000000000 0x3fc999999999999a ≡ true)
    × (f64_lt 0x3fc999999999999a 0xbff8000000000000 ≡ false)
unfolding f64_lt
order_test = (refl, refl)
