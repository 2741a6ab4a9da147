-- ===== src/Digest/Texts.antt =====
-- What the digests do with texts.
use Prim.Native.String.{[], ◌∷◌}
use mimi_agent.Base.{
  ℕ, zero, suc, ◌-◌, String, ◌<>◌, Bool, Option, none, some, ltb, ◌==◌, nat_eq, if◌then◌else◌,
}
use mimi_agent.Str.{starts, count, all_chars, rstrip_by, decimal}
use mimi_agent.Scheduler.Number.{ℤ, pos, negsuc}

-- `s.isascii()`
abbrev pub is_ascii : String → Bool
is_ascii s = all_chars (λ c. ltb c 128) s

-- `s.rstrip("/")`
abbrev pub without_slash : String → String
without_slash s = rstrip_by (λ c. c == b'/') s

-- `s[n:]`
unfoldable pub drop_chars : ℕ → String → String
drop_chars zero s = s
drop_chars (suc n) [] = []
drop_chars (suc n) (c ∷ s) = drop_chars n s

-- The characters of a match that was replaced are passed over.
unfoldable pub replace_from : String → String → ℕ → String → String
replace_from old new skip [] = []
replace_from old new (suc skip) (c ∷ s) = replace_from old new skip s
replace_from old new zero (c ∷ s) =
    let behind = replace_from old new (count old - 1) s in
    let rest = replace_from old new zero s in if starts (c ∷ s) old then new <> behind else c ∷ rest

-- `s.replace(old, new)`, for an `old` that is not empty.
unfoldable pub replace_text : String → String → String → String
unfolding replace_from
replace_text old new s = replace_from old new 0 s

-- `str(n)`
abbrev pub show_int : ℤ → String
show_int (pos n) = decimal n
show_int (negsuc n) = "-" <> decimal (suc n)

-- `json.dumps` of an optional text or number, given its own text.
abbrev pub or_null : Option String → String
or_null none = "null"
or_null (some s) = s
