-- ===== src/Kubernetes/JobName/Laws.antt =====
-- The name of a Job is an RFC 1123 label.
use Prim.Native.String.{[], ◌∷◌}
use text.Mathlib.TextLemmas.{cons-append, nil-append}
use mimi_agent.Base.{
  ℕ, zero, suc, ◌≤◌, ◌≡◌, refl, String, ◌<>◌, Char, code, Bool, true, false, ◌&&◌, ◌||◌, leb, arith,
  inl, inr, Bool-cases, and-eq-true, ◌==◌, nat_eq, if◌then◌else◌,
}
use mimi_agent.Str.{all_chars, count, has_char, is_nonempty, prefix, rstrip_by}
use mimi_agent.Str.Laws.{count-prefix-le}
use mimi_agent.Kubernetes.JobName.{
  swap_char, swap_chars, capitals, small_letters, lower, name_suffix, is_dash, name_of,
}

-- Lower-case letters and digits.
unfoldable pub is_alnum : ℕ → Bool
is_alnum c = (leb b'a' c && leb c b'z') || (leb b'0' c && leb c b'9')

unfoldable pub is_label_char : ℕ → Bool
unfolding is_alnum
is_label_char c = is_alnum c || c == b'-'

-- Letters, digits, dashes and underscores.
unfoldable pub is_id_char : ℕ → Bool
unfolding is_label_char
is_id_char c = is_label_char c || c == b'_' || (leb b'A' c && leb c b'Z')

abbrev pub starts_with : (ℕ → Bool) → String → Bool
starts_with p [] = false
starts_with p (c ∷ s) = p (code c)

abbrev pub ends_with : (ℕ → Bool) → String → Bool
ends_with p [] = false
ends_with p (c ∷ s) = if is_nonempty s then ends_with p s else p (code c)

-- At most 63 characters, of which the first and the last are no dashes.
pub record IsLabel (name : String) : Type 0 where
  pub short : count name ≤ 63
  pub spelled : all_chars is_label_char name ≡ true
  pub first : starts_with is_alnum name ≡ true
  pub last : ends_with is_alnum name ≡ true

-- What holds of the characters that are put in, and of those that stay.
swap_char_lem :
    (q : ℕ → Bool) (from into : String) (c : Char)
    → count from ≤ count into
    → all_chars q into ≡ true
    → (has_char (code c) from ≡ false → q (code c) ≡ true)
    → q (code (swap_char from into c)) ≡ true
unfolding swap_char
swap_char_lem q [] t c fits put stays = stays refl
swap_char_lem q (a ∷ s) [] c fits put stays = absurd (omega arith)
swap_char_lem q (a ∷ s) (b ∷ t) c fits put stays =
    let (here, others) = and-eq-true _ _ put in
    elim (Bool-cases (code c == code a)) [
      | inl same ↦ rw same here
      | inr other ↦
          rw other
            (swap_char_lem q s t c (omega (arith, fits)) others (λ absent. stays (ground arith)))
    ]

module _ (p q : ℕ → Bool) (from into : String) where
  all_chars-swap_chars :
      (s : String)
      → count from ≤ count into
      → all_chars q into ≡ true
      → ((c : ℕ) → p c ≡ true → has_char c from ≡ false → q c ≡ true)
      → all_chars p s ≡ true
      → all_chars q (swap_chars from into s) ≡ true
  unfolding swap_chars
  all_chars-swap_chars [] fits put stays h = refl
  all_chars-swap_chars (c ∷ s) fits put stays h =
      let (here, others) = and-eq-true _ _ h in
      rw (
        swap_char_lem q from into c fits put (stays (code c) here),
        all_chars-swap_chars s fits put stays others,
      )

is_dashed_char : ℕ → Bool
is_dashed_char c = is_label_char c || (leb b'A' c && leb c b'Z')

not_capital :
    (c : ℕ) → is_dashed_char c ≡ true → has_char c capitals ≡ false → is_label_char c ≡ true
unfolding is_dashed_char is_label_char is_alnum
not_capital c h absent = ground arith

not_underscore : (c : ℕ) → is_id_char c ≡ true → has_char c "_" ≡ false → is_dashed_char c ≡ true
unfolding is_dashed_char is_id_char is_label_char is_alnum
not_underscore c h absent = ground arith

name_suffix_lem :
    (id : String) → all_chars is_id_char id ≡ true → all_chars is_label_char (name_suffix id) ≡ true
unfolding name_suffix lower
name_suffix_lem id h =
    all_chars-swap_chars is_dashed_char is_label_char capitals small_letters _ (omega arith)
      (unfold is_label_char is_alnum in refl) not_capital
      (all_chars-swap_chars is_id_char is_dashed_char "_" "-" id (omega arith)
        (unfold is_dashed_char is_label_char is_alnum nat_eq in refl) not_underscore h)

all_chars-append :
    (p : ℕ → Bool) (s t : String)
    → all_chars p s ≡ true
    → all_chars p t ≡ true
    → all_chars p (s <> t) ≡ true
all_chars-append p [] t hs ht = rw nil-append ht
all_chars-append p (c ∷ s) t hs ht =
    let (here, others) = and-eq-true (p (code c)) (all_chars p s) hs in
    rw (cons-append, here) (all_chars-append p s t others ht)

all_chars-prefix :
    (p : ℕ → Bool) (n : ℕ) (s : String) → all_chars p s ≡ true → all_chars p (prefix n s) ≡ true
unfolding prefix
all_chars-prefix p zero s h = refl
all_chars-prefix p (suc n) [] h = refl
all_chars-prefix p (suc n) (c ∷ s) h = ground (arith, all_chars-prefix p n s)

starts_with-append :
    (p : ℕ → Bool) (s t : String) → starts_with p s ≡ true → starts_with p (s <> t) ≡ true
starts_with-append p [] t h = cc h
starts_with-append p (c ∷ s) t h = rw cons-append h

starts_with-prefix :
    (p : ℕ → Bool) (n : ℕ) (s : String)
    → starts_with p s ≡ true
    → starts_with p (prefix (suc n) s) ≡ true
unfolding prefix
starts_with-prefix p n [] h = cc h
starts_with-prefix p n (c ∷ s) h = h

-- What stripping leaves at the end of a text is a prefix of it.
module _ (p : ℕ → Bool) where
  all_chars-rstripped :
      (q : ℕ → Bool) (s : String) → all_chars q s ≡ true → all_chars q (rstrip_by p s) ≡ true
  unfolding rstrip_by
  all_chars-rstripped q [] h = refl
  all_chars-rstripped q (c ∷ s) h = ground (arith, all_chars-rstripped q s)

  count-rstrip_by-le : (s : String) → count (rstrip_by p s) ≤ count s
  unfolding rstrip_by
  count-rstrip_by-le [] = omega arith
  count-rstrip_by-le (c ∷ s) = ground (arith, count-rstrip_by-le s)

  starts_with-rstrip_by :
      (q : ℕ → Bool) (s : String)
      → ((c : ℕ) → q c ≡ true → p c ≡ false)
      → starts_with q s ≡ true
      → starts_with q (rstrip_by p s) ≡ true
  unfolding rstrip_by
  starts_with-rstrip_by q [] apart h = cc h
  starts_with-rstrip_by q (c ∷ s) apart h = rw (apart (code c) h) h

  ends_with-rstrip_by :
      (q r : ℕ → Bool) (s : String)
      → ((c : ℕ) → q c ≡ true → p c ≡ false → r c ≡ true)
      → all_chars q s ≡ true
      → is_nonempty (rstrip_by p s) ≡ true
      → ends_with r (rstrip_by p s) ≡ true
  unfolding rstrip_by
  ends_with-rstrip_by q r [] stays h some_left = cc some_left
  ends_with-rstrip_by q r (c ∷ s) stays h some_left =
      ground (arith, stays (code c), ends_with-rstrip_by q r s stays)

nonempty_start : (p : ℕ → Bool) (s : String) → starts_with p s ≡ true → is_nonempty s ≡ true
nonempty_start p [] h = cc h
nonempty_start p (c ∷ s) h = refl

no_dash : (c : ℕ) → is_alnum c ≡ true → is_dash c ≡ false
unfolding is_alnum
no_dash c h = ground arith

end_char : (c : ℕ) → is_label_char c ≡ true → is_dash c ≡ false → is_alnum c ≡ true
unfolding is_label_char
end_char c h = ground arith

-- The name of a Job is a label of at most 63 small letters, digits and dashes that neither begins nor ends
-- with a dash, whatever the length of the session id, which is of letters, digits, dashes and
-- underscores, where the configured prefix has only such characters of a label and does not begin with a
-- dash.
pub name_of-IsLabel :
    (job_name_prefix session_id : String)
    → all_chars is_label_char job_name_prefix ≡ true
    → starts_with is_alnum job_name_prefix ≡ true
    → all_chars is_id_char session_id ≡ true
    → IsLabel (name_of job_name_prefix session_id)
unfolding name_of
name_of-IsLabel job_name_prefix session_id spelled begins id =
    let whole = job_name_prefix <> ("-" <> name_suffix session_id) in
    let labelled : all_chars is_label_char whole ≡ true =
      all_chars-append is_label_char job_name_prefix _ spelled (
        all_chars-append is_label_char "-" _ (unfold is_label_char is_alnum nat_eq in refl)
          (name_suffix_lem session_id id)) in
    let cut : all_chars is_label_char (prefix 63 whole) ≡ true =
      all_chars-prefix is_label_char 63 whole labelled in
    let started : starts_with is_alnum (prefix 63 whole) ≡ true =
      starts_with-prefix is_alnum 62 whole (starts_with-append is_alnum job_name_prefix _ begins) in
    let kept = starts_with-rstrip_by is_dash is_alnum (prefix 63 whole) no_dash started in
    record {
      short = omega (arith, count-prefix-le 63 whole, count-rstrip_by-le is_dash (prefix 63 whole));
      spelled = all_chars-rstripped is_dash is_label_char (prefix 63 whole) cut;
      first = kept;
      last =
          ends_with-rstrip_by is_dash is_label_char is_alnum (prefix 63 whole) end_char cut
            (nonempty_start is_alnum _ kept);
    }
