-- ===== src/Scheduler/Number.antt =====
-- `int(s)` of Python on ASCII text. Decimal digits of other scripts, which Python reads too, are
-- refused here.
use Prim.Native.String.{[], ◌∷◌}
use mimi_agent.Base.{
  ℕ, zero, suc, ◌+◌, ◌-◌, ◌*◌, String, code, Bool, true, false, ◌&&◌, Option, none, some, leb, ◌==◌,
  nat_eq, if◌then◌else◌,
}
use mimi_agent.Str.{strip}

-- `negsuc n` is -(n + 1).
pub data ℤ : Type 0 where
  pos : ℕ → ℤ
  negsuc : ℕ → ℤ

-- The digits, with single underscores between them. The flag says that a digit was read last.
unfoldable pub digits : ℕ → Bool → String → Option ℕ
digits acc true [] = some acc
digits acc false [] = none
digits acc last (c ∷ s) =
    let more = digits (acc * 10 + (code c - 48)) true s in
    let skip = digits acc false s in
    if leb 48 (code c) && leb (code c) 57
    then more
    else if code c == b'_' && last
    then skip
    else none

abbrev pub negate : Option ℕ → Option ℤ
negate none = none
negate (some zero) = some (pos 0)
negate (some (suc n)) = some (negsuc n)

abbrev pub as_pos : Option ℕ → Option ℤ
as_pos none = none
as_pos (some n) = some (pos n)

unfoldable pub signed : String → Option ℤ
signed [] = none
signed (c ∷ s) =
    if code c == b'-'
    then negate (digits 0 false s)
    else if code c == b'+'
    then as_pos (digits 0 false s)
    else as_pos (digits 0 false (c ∷ s))

unfoldable pub int_of : String → Option ℤ
unfolding signed digits
int_of s = signed (strip s)
