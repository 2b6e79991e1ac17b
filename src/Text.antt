-- ===== src/Text.antt =====
-- Texts as the lists of their bytes, and the standard library's functions on them.
use Prim.Native.Char.{code}
use Prim.Native.String.{String}
use mwck_rs.Prelude.{
  ℕ, zero, suc, ◌+◌, ◌/◌, ◌%◌, Bool, true, false, ◌&&◌, List, [], ◌∷◌, ltb, ◌==◌, if◌then◌else◌,
}

abbrev pub Str : Type 0
Str = List ℕ

abbrev pub codes : String → Str
codes String.[] = []
codes (String.◌∷◌ c s) = code c ∷ codes s

-- `==` on `str`.
unfoldable pub str_eq : Str → Str → Bool
str_eq [] [] = true
str_eq [] (d ∷ t) = false
str_eq (c ∷ s) [] = false
str_eq (c ∷ s) (d ∷ t) = c == d && str_eq s t

decimal_loop : ℕ → ℕ → Str → Str
decimal_loop zero n out = out
decimal_loop (suc fuel) n out =
    let digit = b'0' + n % 10 in
    let rest = decimal_loop fuel (n / 10) (digit ∷ out) in if ltb n 10 then digit ∷ out else rest

-- `Display` of an unsigned integer: a `usize` has at most 20 digits.
unfoldable pub decimal : ℕ → Str
unfolding decimal_loop
decimal n = decimal_loop 20 n []
