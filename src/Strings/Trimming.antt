-- ===== src/Strings/Trimming.antt =====
-- `trim_space` on texts with and without spaces.
use forge_proxy.Base.{ℕ, Bytes, All, false, [], ◌∷◌, ◌++◌, ◌≡◌, ◌≢◌, refl, arith}
use forge_proxy.Strings.Splitting.{Lacks}
use forge_proxy.Strings.{is_space, trim_left, trim_right, keep_or_drop, trim_space}

-- A text that is empty or begins with no space.
abbrev Starts : Bytes → Type 0
Starts [] = Unit
Starts (c ∷ s) = is_space c ≡ false

trim_left-Starts : (s : Bytes) → Starts (trim_left s)
unfolding trim_left
trim_left-Starts [] = tt
trim_left-Starts (c ∷ s) = ground (arith, trim_left-Starts s)

trim_left_of_Starts : (s : Bytes) → Starts s → trim_left s ≡ s
unfolding trim_left
trim_left_of_Starts [] h = refl
trim_left_of_Starts (c ∷ s) h = ground arith

keep_or_drop-Starts : (c : ℕ) (t : Bytes) → is_space c ≡ false → Starts (keep_or_drop c t)
unfolding keep_or_drop
keep_or_drop-Starts c [] h = ground arith
keep_or_drop-Starts c (d ∷ t) h = h

trim_right-Starts : (s : Bytes) → Starts s → Starts (trim_right s)
unfolding trim_right
trim_right-Starts [] h = tt
trim_right-Starts (c ∷ s) h = keep_or_drop-Starts c (trim_right s) h

trim_right-keep_or_drop :
    (c : ℕ) (t : Bytes) → trim_right t ≡ t → trim_right (keep_or_drop c t) ≡ keep_or_drop c t
unfolding trim_right
trim_right-keep_or_drop c [] h = ground arith
trim_right-keep_or_drop c (d ∷ t) h = ground arith

trim_right_idem : (s : Bytes) → trim_right (trim_right s) ≡ trim_right s
unfolding trim_right
trim_right_idem [] = refl
trim_right_idem (c ∷ s) = trim_right-keep_or_drop c (trim_right s) (trim_right_idem s)

pub trim_space_idem : (s : Bytes) → trim_space (trim_space s) ≡ trim_space s
unfolding trim_space
trim_space_idem s =
    rw
      (trim_left_of_Starts (trim_right (trim_left s))
        (trim_right-Starts (trim_left s) (trim_left-Starts s)))
      (trim_right_idem (trim_left s))

-- A space in front of a text is dropped.
pub trim_space-space : (s : Bytes) → trim_space (32 ∷ s) ≡ trim_space s
unfolding trim_space
trim_space-space s = refl

-- Trimming adds no byte.
trim_left-Lacks : (b : ℕ) (s : Bytes) → Lacks b s → Lacks b (trim_left s)
unfolding trim_left
trim_left-Lacks b [] h = tt
trim_left-Lacks b (c ∷ s) (h, hs) = ground (arith, trim_left-Lacks b s hs)

keep_or_drop-Lacks : (b c : ℕ) (t : Bytes) → c ≢ b → Lacks b t → Lacks b (keep_or_drop c t)
unfolding keep_or_drop
keep_or_drop-Lacks b c [] h _ = ground arith
keep_or_drop-Lacks b c (d ∷ t) h k = (h, k)

trim_right-Lacks : (b : ℕ) (s : Bytes) → Lacks b s → Lacks b (trim_right s)
unfolding trim_right
trim_right-Lacks b [] h = tt
trim_right-Lacks b (c ∷ s) (h, hs) =
    keep_or_drop-Lacks b c (trim_right s) h (trim_right-Lacks b s hs)

pub trim_space-Lacks : (b : ℕ) (s : Bytes) → Lacks b s → Lacks b (trim_space s)
unfolding trim_space
trim_space-Lacks b s h = trim_right-Lacks b (trim_left s) (trim_left-Lacks b s h)

trim_left-plain : (s : Bytes) → All (λ c. is_space c ≡ false) s → trim_left s ≡ s
unfolding trim_left
trim_left-plain [] _ = refl
trim_left-plain (c ∷ s) (h, hs) = rw h

trim_right-plain : (s : Bytes) → All (λ c. is_space c ≡ false) s → trim_right s ≡ s
unfolding trim_right keep_or_drop
trim_right-plain [] _ = refl
trim_right-plain (c ∷ []) (h, _) = rw h
trim_right-plain (c ∷ d ∷ s) (h, hs) = rw (trim_right-plain (d ∷ s) hs)

-- A text without white space is trimmed to itself.
pub trim_space-plain : (s : Bytes) → All (λ c. is_space c ≡ false) s → trim_space s ≡ s
unfolding trim_space
trim_space-plain s h = rw (trim_left-plain s h) (trim_right-plain s h)

trim_right-line : (s : Bytes) → All (λ c. is_space c ≡ false) s → trim_right (s ++ 10 ∷ []) ≡ s
unfolding trim_right keep_or_drop
trim_right-line [] _ = refl
trim_right-line (c ∷ []) (h, _) = rw h refl
trim_right-line (c ∷ d ∷ s) (h, hs) = rw (trim_right-line (d ∷ s) hs) refl

trim_left-line :
    (s : Bytes) → All (λ c. is_space c ≡ false) s → trim_right (trim_left (s ++ 10 ∷ [])) ≡ s
unfolding trim_left trim_right keep_or_drop
trim_left-line [] _ = refl
trim_left-line (c ∷ s) (h, hs) = rw h (trim_right-line (c ∷ s) (h, hs))

-- A line without other white space is trimmed to its text.
pub trim_space-line : (s : Bytes) → All (λ c. is_space c ≡ false) s → trim_space (s ++ 10 ∷ []) ≡ s
unfolding trim_space
trim_space-line s h = trim_left-line s h
