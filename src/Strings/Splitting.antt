-- ===== src/Strings/Splitting.antt =====
-- `split` and `join` together, and the parts of a split.
use forge_proxy.Base.{
  ℕ, Bytes, List, [], ◌∷◌, ◌++◌, ◌≡◌, ◌≢◌, refl, ap, arith, All, append-nil, ◌↔◌, true, ◌=ᵇ◌,
  =ᵇ_iff, =ᵇ_refl, Bool-cases, inl, inr,
}
use forge_proxy.Strings.{push_head, split, join, joined, before, has_suffix}

abbrev pub Lacks : ℕ → Bytes → Type 0
Lacks b = All (λ c. c ≢ b)

push_head-Lacks :
    (b c : ℕ) (ps : List Bytes) → c ≢ b → All (Lacks b) ps → All (Lacks b) (push_head c ps)
unfolding push_head
push_head-Lacks b c [] h _ = ((h, tt), tt)
push_head-Lacks b c (p ∷ ps) h (hp, hps) = ((h, hp), hps)

pub split-Lacks : (s : Bytes) (sep : ℕ) → All (Lacks sep) (split s sep)
unfolding split
split-Lacks [] sep = (tt, tt)
split-Lacks (c ∷ s) sep = ground (arith, split-Lacks s sep, push_head-Lacks sep c (split s sep))

pub before-Lacks : (b : ℕ) (s : Bytes) → Lacks b (before b s)
unfolding before
before-Lacks b [] = tt
before-Lacks b (c ∷ s) = ground (arith, before-Lacks b s)

-- A part in front of a separator is split off.
split-cons : (p s : Bytes) (sep : ℕ) → Lacks sep p → split (p ++ sep ∷ s) sep ≡ p ∷ split s sep
unfolding split push_head
split-cons [] s sep _ = ground arith
split-cons (c ∷ p) s sep (h, hp) = ground (arith, split-cons p s sep hp)

split_of_Lacks : (p : Bytes) (sep : ℕ) → Lacks sep p → split p sep ≡ p ∷ []
unfolding split push_head
split_of_Lacks [] sep _ = refl
split_of_Lacks (c ∷ p) sep (h, hp) = ground (arith, split_of_Lacks p sep hp)

-- Splitting a join whose separator begins with `sep`: every part but the first has the rest of the
-- separator in front.
abbrev pub tails : Bytes → List Bytes → List Bytes
tails pad [] = []
tails pad (p ∷ ps) = (pad ++ p) ∷ tails pad ps

abbrev pub padded : Bytes → List Bytes → List Bytes
padded pad [] = []
padded pad (p ∷ ps) = p ∷ tails pad ps

Lacks-append : (b : ℕ) (s t : Bytes) → Lacks b s → Lacks b t → Lacks b (s ++ t)
Lacks-append b [] t _ h = h
Lacks-append b (c ∷ s) t (h, hs) k = (h, Lacks-append b s t hs k)

split-joined :
    (sep : ℕ) (pad p : Bytes) (ps : List Bytes)
    → Lacks sep pad
    → Lacks sep p
    → All (Lacks sep) ps
    → split (p ++ joined ps (sep ∷ pad)) sep ≡ p ∷ tails pad ps
unfolding joined
split-joined sep pad p [] _ hp _ = rw append-nil (split_of_Lacks p sep hp)
split-joined sep pad p (q ∷ qs) hpad hp (hq, hqs) =
    rw (split-cons p (pad ++ q ++ joined qs (sep ∷ pad)) sep hp) (
      ap (λ t. p ∷ t)
        (split-joined sep pad (pad ++ q) qs hpad (Lacks-append sep pad q hpad hq) hqs))

pub split-join :
    (sep : ℕ) (pad p : Bytes) (ps : List Bytes)
    → Lacks sep pad
    → All (Lacks sep) (p ∷ ps)
    → split (join (p ∷ ps) (sep ∷ pad)) sep ≡ padded pad (p ∷ ps)
unfolding join
split-join sep pad p ps hpad (hp, hps) = split-joined sep pad p ps hpad hp hps

suffix-append : (pre p : Bytes) → has_suffix (pre ++ p) p ≡ true
unfolding has_suffix
suffix-append [] [] = unfold ◌=ᵇ◌ in refl
suffix-append [] (c ∷ p) = rw (=ᵇ_refl (c ∷ p))
suffix-append (c ∷ pre) p = ground (arith, suffix-append pre p)

suffix_sound : (s p : Bytes) → has_suffix s p ≡ true → (pre : Bytes) × (s ≡ pre ++ p)
unfolding has_suffix
suffix_sound [] p h = ([], (=ᵇ_iff [] p).0 h)
suffix_sound (c ∷ s) p h = elim (Bool-cases ((c ∷ s) =ᵇ p)) [
  | inl e ↦ ([], (=ᵇ_iff (c ∷ s) p).0 e)
  | inr e ↦
      let (pre, same) = suffix_sound s p (rw (e, has_suffix) at h) in
      (c ∷ pre, ap (λ t. c ∷ t) same)
]

-- A text ends in another exactly when it is some text followed by that one.
pub has_suffix_iff : (s p : Bytes) → (has_suffix s p ≡ true) ↔ ((pre : Bytes) × (s ≡ pre ++ p))
has_suffix_iff s p = (suffix_sound s p, λ e. rw (e.1) (suffix-append e.0 p))
