-- ===== src/Wildcards/Meaning.antt =====
-- What a wildcard string means, and that cleaning keeps it.
use clp_core.Base.{
  ℕ, zero, suc, ◌≤◌, ◌<◌, ◌≡◌, refl, ap, sym, ◌∙◌, Bool, true, false, ◌||◌, ◌==◌, ==_iff, ◌⊎◌,
  if◌then◌else◌, Bytes, List, [], ◌∷◌, ◌++◌, length, append_assoc, append-nil, ok, arith,
  Bool-cases, inl, inr,
}
use clp_core.Chars.{is_wildcard}
use clp_core.Wildcards.{skip_stars, copy_group, clean_loop, clean_up_wildcard_search_string}

pub data Wild : Type 0 where
  star : Wild
  any_byte : Wild
  one_byte : ℕ → Wild

-- The wildcards of a string; a lone escape character at its end means nothing. The flag says that
-- the byte in front was an escape character.
abbrev pub wilds : Bool → Bytes → List Wild
wilds e [] = []
wilds true (c ∷ s) = one_byte c ∷ wilds false s
wilds false (c ∷ s) =
    if b'\\' == c
    then wilds true s
    else if b'*' == c
    then star ∷ wilds false s
    else if b'?' == c
    then any_byte ∷ wilds false s
    else one_byte c ∷ wilds false s

-- Stars side by side mean one star. The flag says that a star stands in front.
abbrev pub squeeze : Bool → List Wild → List Wild
squeeze b [] = []
squeeze true (star ∷ ws) = squeeze true ws
squeeze false (star ∷ ws) = star ∷ squeeze true ws
squeeze b (any_byte ∷ ws) = any_byte ∷ squeeze false ws
squeeze b (one_byte c ∷ ws) = one_byte c ∷ squeeze false ws

-- Two strings that begin with a star and mean the same behind one.
record Alike (xs ys : List Wild) : Type 0 where
  xs' : List Wild
  ys' : List Wild
  left : xs ≡ star ∷ xs'
  right : ys ≡ star ∷ ys'
  same : squeeze true xs ≡ squeeze true ys

squeeze-Alike : (b : Bool) (xs ys : List Wild) → Alike xs ys → squeeze b xs ≡ squeeze b ys
squeeze-Alike true xs ys a = a.same
squeeze-Alike false xs ys a =
    ap (squeeze false) a.left
    ∙ ap (λ ws. star ∷ ws) (sym (ap (squeeze true) a.left) ∙ a.same ∙ ap (squeeze true) a.right)
    ∙ sym (ap (squeeze false) a.right)

squeeze-append-Alike :
    (b : Bool) (ws xs ys : List Wild) → Alike xs ys → squeeze b (ws ++ xs) ≡ squeeze b (ws ++ ys)
squeeze-append-Alike b [] xs ys a = squeeze-Alike b xs ys a
squeeze-append-Alike true (star ∷ ws) xs ys a = squeeze-append-Alike true ws xs ys a
squeeze-append-Alike false (star ∷ ws) xs ys a =
    ap (λ t. star ∷ t) (squeeze-append-Alike true ws xs ys a)
squeeze-append-Alike true (any_byte ∷ ws) xs ys a =
    ap (λ t. any_byte ∷ t) (squeeze-append-Alike false ws xs ys a)
squeeze-append-Alike false (any_byte ∷ ws) xs ys a =
    ap (λ t. any_byte ∷ t) (squeeze-append-Alike false ws xs ys a)
squeeze-append-Alike true (one_byte c ∷ ws) xs ys a =
    ap (λ t. one_byte c ∷ t) (squeeze-append-Alike false ws xs ys a)
squeeze-append-Alike false (one_byte c ∷ ws) xs ys a =
    ap (λ t. one_byte c ∷ t) (squeeze-append-Alike false ws xs ys a)

squeeze-skip_stars :
    (s : Bytes) (ys : List Wild)
    → squeeze true (wilds false (skip_stars s) ++ ys) ≡ squeeze true (wilds false s ++ ys)
unfolding skip_stars
squeeze-skip_stars [] ys = refl
squeeze-skip_stars (c ∷ s) ys = elim (Bool-cases (c == b'*')) [
  | inl is_star ↦ rw (skip_stars, (==_iff c b'*').0 is_star) (squeeze-skip_stars s ys)
  | inr other ↦ rw (skip_stars, other) refl
]

-- A group copied from `s`: its text means what `s` means up to the rest.
record Copied (s : Bytes) (e : Bool) (cleaned : Bytes) (r : Bytes × Bytes) : Type 0 where
  text : Bytes
  meaning : List Wild
  cleaned_is : r.0 ≡ cleaned ++ text
  text_means : (t : Bytes) → wilds false (text ++ t) ≡ meaning ++ wilds false t
  source_means : wilds e s ≡ meaning ++ wilds false r.1
  rest_at_star : (r.1 ≡ []) ⊎ ((t : Bytes) × (r.1 ≡ b'*' ∷ t))
  shorter : length r.1 ≤ length s

abbrev wild_of : ℕ → Wild
wild_of c = if b'?' == c then any_byte else one_byte c

wilds_other :
    (c : ℕ) (s : Bytes)
    → (b'\\' == c) ≡ false
    → (b'*' == c) ≡ false
    → wilds false (c ∷ s) ≡ wild_of c ∷ wilds false s
wilds_other c s h k = ground arith

wilds_usual :
    (c : ℕ) (s : Bytes)
    → (is_wildcard c || b'\\' == c) ≡ false
    → wilds false (c ∷ s) ≡ one_byte c ∷ wilds false s
unfolding is_wildcard
wilds_usual c s h = ground arith

copy_group-Copied :
    (s : Bytes) (e : Bool) (cleaned : Bytes) → Copied s e cleaned (copy_group s e cleaned)
unfolding copy_group
copy_group-Copied [] e cleaned = record {
  text = [];
  meaning = [];
  cleaned_is = sym (append-nil cleaned);
  text_means = λ t. refl;
  source_means = refl;
  rest_at_star = inl refl;
  shorter = omega arith;
}
copy_group-Copied (c ∷ s) true cleaned = elim (Bool-cases (is_wildcard c || b'\\' == c)) [
  | inl special ↦
      let k = copy_group-Copied s false ((cleaned ++ b'\\' ∷ []) ++ c ∷ []) in
      rw (copy_group, special)
        (record {
          text = b'\\' ∷ c ∷ k.text;
          meaning = one_byte c ∷ k.meaning;
          cleaned_is = k.cleaned_is ∙ simp append_assoc;
          text_means = λ t. ap (λ ws. one_byte c ∷ ws) (k.text_means t);
          source_means = ap (λ ws. one_byte c ∷ ws) k.source_means;
          rest_at_star = k.rest_at_star;
          shorter = omega (arith, k.shorter);
        })
  | inr usual ↦
      let k = copy_group-Copied s false (cleaned ++ c ∷ []) in
      rw (copy_group, usual)
        (record {
          text = c ∷ k.text;
          meaning = one_byte c ∷ k.meaning;
          cleaned_is = k.cleaned_is ∙ simp append_assoc;
          text_means =
              λ t. wilds_usual c (k.text ++ t) usual ∙ ap (λ ws. one_byte c ∷ ws) (k.text_means t);
          source_means = ap (λ ws. one_byte c ∷ ws) k.source_means;
          rest_at_star = k.rest_at_star;
          shorter = omega (arith, k.shorter);
        })
]
copy_group-Copied (c ∷ s) false cleaned = elim (Bool-cases (b'\\' == c)) [
  | inl escape ↦
      let k = copy_group-Copied s true cleaned in
      rw (copy_group, escape)
        (record {
          text = k.text;
          meaning = k.meaning;
          cleaned_is = k.cleaned_is;
          text_means = k.text_means;
          source_means = rw escape k.source_means;
          rest_at_star = k.rest_at_star;
          shorter = omega (arith, k.shorter);
        })
  | inr no_escape ↦ elim (Bool-cases (b'*' == c)) [
    | inl at_star ↦
        rw (copy_group, no_escape, at_star)
          (record {
            text = [];
            meaning = [];
            cleaned_is = sym (append-nil cleaned);
            text_means = λ t. refl;
            source_means = refl;
            rest_at_star = inr (s, ap (λ n. n ∷ s) (sym ((==_iff b'*' c).0 at_star)));
            shorter = omega arith;
          })
    | inr other ↦
        let k = copy_group-Copied s false (cleaned ++ c ∷ []) in
        rw (copy_group, no_escape, other)
          (record {
            text = c ∷ k.text;
            meaning = wild_of c ∷ k.meaning;
            cleaned_is = k.cleaned_is ∙ simp append_assoc;
            text_means = λ t.
                wilds_other c (k.text ++ t) no_escape other
                ∙ ap (λ ws. wild_of c ∷ ws) (k.text_means t);
            source_means =
                wilds_other c s no_escape other ∙ ap (λ ws. wild_of c ∷ ws) k.source_means;
            rest_at_star = k.rest_at_star;
            shorter = omega (arith, k.shorter);
          })
  ]
]

copy_group-moves :
    (c : ℕ) (t cleaned : Bytes)
    → (b'*' == c) ≡ false
    → length (copy_group (c ∷ t) false cleaned).1 ≤ length t
unfolding copy_group
copy_group-moves c t cleaned other = elim (Bool-cases (b'\\' == c)) [
  | inl escape ↦ rw (copy_group, escape) (copy_group-Copied t true cleaned).shorter
  | inr no_escape ↦
      rw (copy_group, no_escape, other) (copy_group-Copied t false (cleaned ++ c ∷ [])).shorter
]

skip_stars_lem :
    (s t : Bytes) (c : ℕ) → skip_stars s ≡ c ∷ t → ((b'*' == c) ≡ false) × (length t < length s)
unfolding skip_stars
skip_stars_lem [] t c h = cc
skip_stars_lem (d ∷ s) t c h = elim (Bool-cases (d == b'*')) [
  | inl is_star ↦
      let (other, short) = skip_stars_lem s t c (rw (skip_stars, is_star) at h) in
      (other, omega (arith, short))
  | inr other ↦
      let same : d ∷ s ≡ c ∷ t = rw (skip_stars, other) at h in
      let same_head : d ≡ c = cc in
      let same_tail : s ≡ t = cc in (ground arith, omega (arith, ap length same))
]

Nil-or-cons : (s : Bytes) → (s ≡ []) ⊎ ((c : ℕ) × (t : Bytes) × (s ≡ c ∷ t))
Nil-or-cons [] = inl refl
Nil-or-cons (c ∷ t) = inr (c, t, refl)

abbrev ending : Bytes
ending = b'*' ∷ []

-- What the outer loop adds.
record Cleaned (fuel : ℕ) (s cleaned : Bytes) : Type 0 where
  text : Bytes
  runs : clean_loop fuel s cleaned ≡ ok (cleaned ++ text)
  behind_star : List Wild
  at_star : wilds false (text ++ ending) ≡ star ∷ behind_star
  same : squeeze true (wilds false (text ++ ending)) ≡ squeeze true (wilds false s ++ star ∷ [])

rest-Alike :
    (xs ws : List Wild) (rest : Bytes)
    → (rest ≡ []) ⊎ ((t : Bytes) × (rest ≡ b'*' ∷ t))
    → xs ≡ star ∷ ws
    → squeeze true xs ≡ squeeze true (wilds false rest ++ star ∷ [])
    → Alike xs (wilds false rest ++ star ∷ [])
rest-Alike xs ws rest (inl none_left) h k = record {
  xs' = ws;
  ys' = [];
  left = h;
  right = ap (λ r. wilds false r ++ star ∷ []) none_left;
  same = k;
}
rest-Alike xs ws rest (inr (t, more)) h k = record {
  xs' = ws;
  ys' = wilds false t ++ star ∷ [];
  left = h;
  right = ap (λ r. wilds false r ++ star ∷ []) more;
  same = k;
}

clean_loop-Cleaned : (fuel : ℕ) (s cleaned : Bytes) → length s < fuel → Cleaned fuel s cleaned
unfolding clean_loop
clean_loop-Cleaned zero s cleaned enough = absurd (omega arith)
clean_loop-Cleaned (suc fuel) s cleaned enough = elim (Nil-or-cons (skip_stars s)) [
  | inl only_stars ↦ record {
    text = [];
    runs = rw (clean_loop, only_stars) (ap ok (sym (append-nil cleaned)));
    behind_star = [];
    at_star = refl;
    same =
        ap (λ u. squeeze true (wilds false u ++ star ∷ [])) (sym only_stars)
        ∙ squeeze-skip_stars s (star ∷ []);
  }
  | inr (c, t, found) ↦
      let (other, short) = skip_stars_lem s t c found in
      let r = copy_group (c ∷ t) false (cleaned ++ b'*' ∷ []) in
      let k = copy_group-Copied (c ∷ t) false (cleaned ++ b'*' ∷ []) in
      let moves = copy_group-moves c t (cleaned ++ b'*' ∷ []) other in
      let l = clean_loop-Cleaned fuel r.1 r.0 (omega (arith, short, moves)) in
      let alike = rest-Alike _ l.behind_star r.1 k.rest_at_star l.at_star l.same in
      record {
        text = b'*' ∷ k.text ++ l.text;
        runs =
            rw (clean_loop, found)
              (l.runs ∙ ap (λ u. ok (u ++ l.text)) k.cleaned_is ∙ ap ok (simp append_assoc));
        behind_star = wilds false ((k.text ++ l.text) ++ ending);
        at_star = refl;
        same =
            ap (λ u. squeeze true (wilds false u)) (append_assoc k.text l.text ending)
            ∙ ap (squeeze true) (k.text_means (l.text ++ ending))
            ∙ squeeze-append-Alike true k.meaning _ _ alike
            ∙ ap (squeeze true) (
                sym (append_assoc k.meaning (wilds false r.1) (star ∷ []))
                ∙ ap (λ ws. ws ++ star ∷ []) (sym k.source_means ∙ ap (wilds false) (sym found)))
            ∙ squeeze-skip_stars s (star ∷ []);
      }
]

-- Cleaning a search string always returns, and the cleaned string means what the string means between
-- two stars, stars side by side counted as one.
pub clean_up_wildcard_search_string_lem :
    (str : Bytes)
    → (cleaned : Bytes) × (clean_up_wildcard_search_string str ≡ ok cleaned)
      × (squeeze false (wilds false cleaned) ≡ squeeze false (star ∷ wilds false str ++ star ∷ []))
unfolding clean_up_wildcard_search_string
clean_up_wildcard_search_string_lem str =
    let l = clean_loop-Cleaned (suc (length str)) str [] (omega arith) in
    (
      l.text ++ ending,
      rw l.runs refl,
      ap (squeeze false) l.at_star
          ∙ ap (λ ws. star ∷ ws) (sym (ap (squeeze true) l.at_star) ∙ l.same),
    )
