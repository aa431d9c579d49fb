-- ===== src/Workflow/Keys.antt =====
-- The keys of the cache of workflows.
use brazier.Base.{Text, text, ◌≡◌, ◌≢◌, [], ◌∷◌, arith}
use brazier.Workflow.{key}

-- No "@" stands in the text.
unfoldable pub NoAt : Text → Type 0
NoAt [] = Unit
NoAt (c ∷ s) = (c ≢ 64) × NoAt s

-- A key stands for one name and version, where the names have no "@".
pub key-injective : (n m v w : Text) → NoAt n → NoAt m → key n v ≡ key m w → (n ≡ m) × (v ≡ w)
unfolding NoAt text
key-injective [] [] v w _ _ same = ground arith
key-injective [] (d ∷ m) v w _ no_at same = ground arith
key-injective (c ∷ n) [] v w no_at _ same = ground arith
key-injective (c ∷ n) (d ∷ m) v w (_, at_n) (_, at_m) same =
    let tails = key-injective n m v w at_n at_m (ground arith) in ground (arith, tails)
