-- ===== src/Store/Peers/Active.antt =====
-- ListActive of internal/store/peer_store.go, whose loop does not tell a broken connection from the end.
use shuosc_network_server_ba.Common.{
  ◌≡◌, refl, ap, Bool, true, false, List, [], ◌∷◌, All, arith, select,
}
use shuosc_network_server_ba.World.{
  World, Db, ok, query, query_rows, read_rows, rows_read, call, next_fault, gets, ◌>>=◌,
}
use shuosc_network_server_ba.Store.Peers.{list_active, is_active_peer}

rows_read-whole :
    {A : Type 0} (faults : List Bool) (rows : List A)
    → All (λ f. f ≡ false) faults
    → (rows_read faults rows).0 ≡ rows
rows_read-whole [] rows h = refl
rows_read-whole (f ∷ fs) [] h = refl
rows_read-whole (true ∷ fs) (row ∷ rows) h = absurd (ground (arith, h.0))
rows_read-whole (false ∷ fs) (row ∷ rows) h = ap (λ rs. row ∷ rs) (rows_read-whole fs rows h.1)

query_rows-whole :
    {A : Type 0} (f : Db → List A) (w : World) (faults : List Bool)
    → w.faults ≡ faults
    → All (λ f. f ≡ false) faults
    → (query_rows f w).0 ≡ ok (f w.db)
unfolding query_rows query call next_fault gets read_rows ◌>>=◌
query_rows-whole f w [] e h = rw e refl
query_rows-whole f w (true ∷ fs) e h = absurd (ground (arith, h.0))
query_rows-whole f w (false ∷ fs) e h = rw e (ap ok (rows_read-whole fs (f w.db) h.1))

-- If no call fails, ListActive returns all active rows.
pub list_active-whole :
    (w : World)
    → All (λ f. f ≡ false) w.faults
    → (list_active w).0 ≡ ok (select is_active_peer w.db.peers)
unfolding list_active
list_active-whole w h = query_rows-whole (λ db. select is_active_peer db.peers) w w.faults refl h
