-- ===== src/SingleLevelQueue/Snapshot.antt =====
-- `snapshot` copies the front of the chain, as far as the buffer goes.
use tensor_sched.Prelude.{ℕ, zero, suc, List, [], ◌∷◌, ◌≡◌, refl, ap, take}
use tensor_sched.SingleLevelQueue.{SingleLevelQueue, snapshot_nodes, snapshot}

pub snapshot_nodes-take : (room : ℕ) (ps : List ℕ) → snapshot_nodes room ps ≡ take room ps
unfolding snapshot_nodes
snapshot_nodes-take zero [] = refl
snapshot_nodes-take zero (p ∷ ps) = refl
snapshot_nodes-take (suc n) [] = refl
snapshot_nodes-take (suc n) (p ∷ ps) = ap (◌∷◌ p) (snapshot_nodes-take n ps)

pub snapshot-take : (n : ℕ) (q : SingleLevelQueue) → snapshot n q ≡ take n q.nodes
unfolding snapshot
snapshot-take n q = snapshot_nodes-take n q.nodes
