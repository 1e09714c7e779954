-- ===== src/Proxy/Headers/Entries.antt =====
-- The entries of the `Trailer` and `Cookie` headers after cleaning, read the way a server reads them.
use forge_proxy.Base.{
  ℕ, Bytes, Bool, false, List, [], ◌∷◌, ◌++◌, map, ◌≡◌, ◌≢◌, refl, sym, ap₂, ◌∙◌, All, arith,
  if◌then◌else◌,
}
use forge_proxy.Strings.{split, join, trim_space}
use forge_proxy.Strings.Splitting.{Lacks, split-Lacks, split-join, tails}
use forge_proxy.Strings.Trimming.{trim_space_idem, trim_space-space, trim_space-Lacks}
use forge_proxy.Proxy.Headers.{kept, rejoin, clean}

-- The trimmed entries of one value.
abbrev pub entries_of : ℕ → Bytes → List Bytes
entries_of sep v = map trim_space (split v sep)

-- The entries of a header with several values, in order.
unfoldable pub entries : ℕ → List Bytes → List Bytes
entries sep [] = []
entries sep (v ∷ vs) = entries_of sep v ++ entries sep vs

-- The entries that a test does not drop.
unfoldable pub without : (Bytes → Bool) → List Bytes → List Bytes
without drops [] = []
without drops (e ∷ es) = let rest = without drops es in if drops e then rest else e ∷ rest

without-append :
    (drops : Bytes → Bool) (es fs : List Bytes)
    → without drops (es ++ fs) ≡ without drops es ++ without drops fs
unfolding without
without-append drops [] fs = refl
without-append drops (e ∷ es) fs = ground (arith, without-append drops es fs)

pub without-All :
    (drops : Bytes → Bool) (es : List Bytes) → All (λ e. drops e ≡ false) (without drops es)
unfolding without
without-All drops [] = tt
without-All drops (e ∷ es) = ground (arith, without-All drops es)

kept-without :
    (drops : Bytes → Bool) (es : List Bytes) → kept drops es ≡ without drops (map trim_space es)
unfolding kept without
kept-without drops [] = refl
kept-without drops (e ∷ es) = ground (arith, kept-without drops es)

-- A kept entry is trimmed, and holds no separator.
abbrev IsEntry : ℕ → Bytes → Type 0
IsEntry sep e = (trim_space e ≡ e) × Lacks sep e

kept-IsEntry :
    (drops : Bytes → Bool) (sep : ℕ) (es : List Bytes)
    → All (Lacks sep) es
    → All (IsEntry sep) (kept drops es)
unfolding kept
kept-IsEntry drops sep [] _ = tt
kept-IsEntry drops sep (e ∷ es) (h, hs) =
    ground (arith, kept-IsEntry drops sep es hs, trim_space_idem e, trim_space-Lacks sep e h)

map-trim_tails :
    (sep : ℕ) (es : List Bytes) → All (IsEntry sep) es → map trim_space (tails (32 ∷ []) es) ≡ es
map-trim_tails sep [] _ = refl
map-trim_tails sep (e ∷ es) ((h, _), hs) = rw (trim_space-space e, h, map-trim_tails sep es hs)

All-Lacks : (sep : ℕ) (es : List Bytes) → All (IsEntry sep) es → All (Lacks sep) es
All-Lacks sep [] _ = tt
All-Lacks sep (e ∷ es) ((_, h), hs) = (h, All-Lacks sep es hs)

entries-join :
    (sep : ℕ) (e : Bytes) (es : List Bytes)
    → 32 ≢ sep
    → All (IsEntry sep) (e ∷ es)
    → entries_of sep (join (e ∷ es) (sep ∷ 32 ∷ [])) ≡ e ∷ es
entries-join sep e es h ((t, l), hs) =
    rw (split-join sep (32 ∷ []) e es (h, tt) (l, All-Lacks sep es hs), t, map-trim_tails sep es hs)

entries-rejoin :
    (sep : ℕ) (es vs : List Bytes)
    → 32 ≢ sep
    → All (IsEntry sep) es
    → entries sep (rejoin es sep vs) ≡ es ++ entries sep vs
unfolding rejoin entries
entries-rejoin sep [] vs h _ = refl
entries-rejoin sep (e ∷ es) vs h hs = rw (entries-join sep e es h hs)

-- Cleaning drops the entries that the test drops, and changes no other.
pub entries-clean :
    (drops : Bytes → Bool) (sep : ℕ) (vs : List Bytes)
    → 32 ≢ sep
    → entries sep (clean drops sep vs) ≡ without drops (entries sep vs)
unfolding clean
entries-clean drops sep [] h = unfold entries without in refl
entries-clean drops sep (v ∷ vs) h =
    entries-rejoin sep (kept drops (split v sep)) (clean drops sep vs) h
      (kept-IsEntry drops sep (split v sep) (split-Lacks v sep))
    ∙ ap₂ (λ a b. a ++ b) (kept-without drops (split v sep)) (entries-clean drops sep vs h)
    ∙ sym (unfold entries in without-append drops (entries_of sep v) (entries sep vs))
