-- ===== src/Identity.antt =====
-- src/identity/peer_id.rs: the identity of a node, and the orders and keys that it is used by.
pub mod Load
use parsip.Base.{
  ℕ, ◌≡◌, ◌≢◌, refl, List, [], ◌∷◌, Bool, true, false, not, ltb, length, arith, ℕ_discrete,
  if◌then◌else◌,
}
use parsip.Map.{Key}

-- `PeerId(pub [u8; 32])`
pub record PeerId : Type 0 where
  pub bytes : List ℕ

pub PeerId-discrete : Discrete PeerId
PeerId-discrete = hlevel ℕ_discrete

instance abbrev pub peer_key : Key PeerId
peer_key = record { dec = PeerId-discrete }

-- `a > b` on arrays of bytes: the first bytes that differ decide.
unfoldable pub bytes_gt : List ℕ → List ℕ → Bool
bytes_gt [] ys = false
bytes_gt (x ∷ xs) [] = true
bytes_gt (x ∷ xs) (y ∷ ys) =
    let rest = bytes_gt xs ys in if ltb y x then true else if ltb x y then false else rest

-- Of two different arrays one is the greater, and both sides see the same one.
pub bytes_gt_flip :
    (xs ys : List ℕ) → length xs ≡ length ys → xs ≢ ys → bytes_gt ys xs ≡ not (bytes_gt xs ys)
unfolding bytes_gt
bytes_gt_flip [] [] e ne = absurd (ne refl)
bytes_gt_flip [] (y ∷ ys) e ne = absurd (omega arith)
bytes_gt_flip (x ∷ xs) [] e ne = absurd (omega arith)
bytes_gt_flip (x ∷ xs) (y ∷ ys) e ne = elim (ℕ_discrete x y) [
  | yes p ↦ ground (arith, bytes_gt_flip xs ys (omega arith) (λ q. ne (cc)))
  | no p ↦ ground arith
]
