-- ===== src/User/Search/Liked.antt =====
-- What the pattern of the listing matches.
use forge_proxy.Base.{
  ℕ, Bytes, Bool, true, false, ◌||◌, [], ◌∷◌, ◌++◌, ◌≡◌, ◌≢◌, ◌↔◌, refl, ap, ap₂, ◌∙◌, All, arith,
  append-nil, Bool-cases, inl, inr, ◌⊎◌,
}
use forge_proxy.Strings.{lower_byte, to_lower}
use forge_proxy.User.Store.{Row}
use forge_proxy.User.Search.{some_tail, one_more, like, pattern_of, is_match}

-- The text contains the other text, in whatever case.
abbrev pub Contains : Bytes → Bytes → Type 0
Contains sub s =
    (a : Bytes) × (b : Bytes) × (c : Bytes) × (s ≡ a ++ (b ++ c)) × (to_lower b ≡ to_lower sub)

-- No wildcard.
abbrev pub IsPlain : ℕ → Type 0
IsPlain c = (c ≢ b'%') × (c ≢ b'_')

some_tail_intro : (p : Bytes → Bool) (a s : Bytes) → p s ≡ true → some_tail p (a ++ s) ≡ true
unfolding some_tail
some_tail_intro p [] [] h = h
some_tail_intro p [] (c ∷ s) h = ground arith
some_tail_intro p (c ∷ a) s h = ground (arith, some_tail_intro p a s h)

some_tail_elim :
    (p : Bytes → Bool) (s : Bytes)
    → some_tail p s ≡ true
    → (a : Bytes) × (b : Bytes) × (s ≡ a ++ b) × (p b ≡ true)
unfolding some_tail
some_tail_elim p [] h = ([], [], refl, h)
some_tail_elim p (c ∷ s) h = elim (Bool-cases (p (c ∷ s))) [
  | inl here ↦ ([], c ∷ s, refl, here)
  | inr later ↦
      let (a, b, e, q) = some_tail_elim p s (rw later at h) in (c ∷ a, b, ap (λ x. c ∷ x) e, q)
]

-- The pattern of a single `%`.
like-rest : (s : Bytes) → like (b'%' ∷ []) s ≡ true
unfolding like
like-rest s =
    let here : some_tail (like []) (s ++ []) ≡ true = some_tail_intro (like []) s [] refl in
    rw append-nil at here

-- A plain text and then `%` matches what begins with that text.
like-prefix :
    (sub s : Bytes)
    → All IsPlain sub
    → like (sub ++ (b'%' ∷ [])) s ≡ true
    → (b : Bytes) × (c : Bytes) × (s ≡ b ++ c) × (to_lower b ≡ to_lower sub)
unfolding like one_more to_lower
like-prefix [] s plain h = ([], s, refl, refl)
like-prefix (x ∷ sub) [] (p, plain) h = absurd (ground arith)
like-prefix (x ∷ sub) (d ∷ s) (p, plain) h =
    let same : lower_byte d ≡ lower_byte x = ground arith in
    let rest : like (sub ++ (b'%' ∷ [])) s ≡ true = ground arith in
    let (b, c, e, lower) = like-prefix sub s plain rest in
    (d ∷ b, c, ap (λ z. d ∷ z) e, ap₂ ◌∷◌ same lower)

prefix-like :
    (sub b c : Bytes)
    → All IsPlain sub
    → to_lower b ≡ to_lower sub
    → like (sub ++ (b'%' ∷ [])) (b ++ c) ≡ true
unfolding like one_more to_lower
prefix-like [] [] c plain h = like-rest c
prefix-like [] (d ∷ b) c plain h = cc
prefix-like (x ∷ sub) [] c plain h = cc
prefix-like (x ∷ sub) (d ∷ b) c (p, plain) h =
    let same : lower_byte d ≡ lower_byte x = cc in
    let rest : to_lower b ≡ to_lower sub = unfold to_lower in cc in
    ground (arith, prefix-like sub b c plain rest)

like-Contains :
    (sub s : Bytes) → All IsPlain sub → (like (pattern_of sub) s ≡ true) ↔ Contains sub s
unfolding pattern_of
like-Contains sub s plain = (
  λ h.
      let (a, t, e, q) = some_tail_elim (like (sub ++ (b'%' ∷ []))) s (unfold like in h) in
      let (b, c, f, lower) = like-prefix sub t plain q in (a, b, c, e ∙ ap (λ z. a ++ z) f, lower),
  λ (a, b, c, e, lower).
      unfold like in
      rw e
        (some_tail_intro (like (sub ++ (b'%' ∷ []))) a (b ++ c) (prefix-like sub b c plain lower)),
)

either : {P Q : Type 0} (a b : Bool) → (a ≡ true) ↔ P → (b ≡ true) ↔ Q → ((a || b) ≡ true) ↔ (P ⊎ Q)
either true b p q = (λ h. inl (p.0 refl), λ h. refl)
either false true p q = (λ h. inr (q.0 refl), λ h. refl)
either false false p q = (λ h. cc, λ h. elim h [ inl x ↦ p.1 x | inr y ↦ q.1 y ])

-- A row matches a text without wildcards exactly when its e-mail address or its name contains the
-- text, in whatever case.
pub is_match_iff :
    (sub : Bytes) (r : Row)
    → All IsPlain sub
    → (is_match sub r ≡ true) ↔ (Contains sub r.email ⊎ Contains sub r.name)
unfolding is_match
is_match_iff sub r plain =
    either (like (pattern_of sub) r.email) (like (pattern_of sub) r.name)
      (like-Contains sub r.email plain) (like-Contains sub r.name plain)
