-- ===== src/NcScale/Deltas.antt =====
-- The second loop of `NCScaleSimulation::get_scheme`, which passes the parity deltas on.
use native.Mathlib.Nat.{mod-eq_of_lt, mul-add-mod_self_right}
use stripe_merge.Common.{
  ℕ, zero, suc, ◌+◌, ◌*◌, ◌%◌, ◌^◌, ◌≤◌, ◌<◌, ◌≡◌, ◌≢◌, sym, ap, ap₂, ◌∙◌, List, ◌++◌, arith, map,
  range, some,
}
use stripe_merge.Migration.{MigrationInfo, migration}
use stripe_merge.NcScale.{Phase, all_sent, skip_empty, delta_send, delta_loop}
use stripe_merge.NcScale.RoundRobin.{Turns}
use stripe_merge.NcScale.Phases.{
  from_zero, from_one, old_to_old, Sends, turn, turn-mod, moves-next, from_zero-IsOrder,
  from_one-IsOrder, from_one-below,
}

suc-mod_lem : (n per i k : ℕ) (v : List ℕ) → Turns (from_one n) n per i k v → suc i % n ≡ k
suc-mod_lem n per i zero v t =
    let whole : suc i ≡ (t.rounds + 1) * n + 0 = omega (arith, t.visits, t.inside) in
    ap (λ (x : ℕ). x % n) whole ∙ mul-add-mod_self_right (t.rounds + 1) n 0 ∙ mod-eq_of_lt t.inside
suc-mod_lem n per i (suc k) v t =
    let whole : suc i ≡ t.rounds * n + suc k = omega (arith, t.visits) in
    ap (λ (x : ℕ). x % n) whole ∙ mul-add-mod_self_right t.rounds n (suc k) ∙ mod-eq_of_lt t.inside

from_one-ne : (n k : ℕ) → 1 < n → from_one n k ≢ k
from_one-ne n zero h e = omega arith
from_one-ne n (suc k) h e = omega arith

delta_loop-send :
    (fuel n total i : ℕ) (s : Phase)
    → i < total
    → skip_empty n n s.send s.j ≡ some s.j
    → skip_empty n n s.recv s.k ≡ some s.k
    → s.j ≢ s.k
    → delta_loop (suc fuel) n total i s ≡ delta_loop fuel n total (i + 1) (delta_send n s.j s.k s)
unfolding delta_loop
delta_loop-send fuel n total i s h e e' ne = ground arith

delta_loop-end :
    (fuel n total i : ℕ) (s : Phase)
    → total ≤ i
    → delta_loop (suc fuel) n total i s ≡ some (all_sent s)
unfolding delta_loop
delta_loop-end fuel n total i s h = ground arith

module _ (n per : ℕ) (two : 1 < n) (small : n < 2 ^ 32) (low : per < 2 ^ 32)
    (before : List MigrationInfo) where
  abbrev pub Deltas : ℕ → Phase → Type 0
  Deltas i s = Sends (from_zero n) (from_one n) n n per per (old_to_old n) before i s

  Deltas-apart : (i : ℕ) (s : Phase) → Deltas i s → s.j ≢ s.k
  Deltas-apart i s a e =
      let p : from_one n s.k ≡ s.j =
        sym (
          ap (λ (x : ℕ). x % n) a.receiver.visits
          ∙ mul-add-mod_self_right a.receiver.rounds n (from_one n s.k)
          ∙ mod-eq_of_lt (from_one-below n s.k a.receiver.inside))
        ∙ turn-mod n per i s.j s.send a.sender in
      from_one-ne n s.k two (p ∙ e)

  delta_send-Deltas :
      (i : ℕ) (s : Phase) → i < n * per → Deltas i s → Deltas (i + 1) (delta_send n s.j s.k s)
  unfolding delta_send
  delta_send-Deltas i s h a = record {
    sender = (turn (from_zero n) n per i s.j s.send (from_zero-IsOrder n small) a.sender h low).1;
    receiver =
        (turn (from_one n) n per i s.k s.recv (from_one-IsOrder n two small) a.receiver h low).1;
    moves = moves-next (old_to_old n) before s.scheme i _ a.moves (
        ap₂ (λ x y. migration (x + 1) (y + 1) 1) (sym (turn-mod n per i s.j s.send a.sender))
          (sym (suc-mod_lem n per i s.k s.recv a.receiver)));
  }

  -- The second loop sends in turn as well. It ends with all blocks sent: no node is ever left to send to
  -- itself, and the fuel suffices.
  pub delta_loop_lem :
      (rounds fuel i : ℕ) (s : Phase)
      → i + rounds ≡ n * per
      → rounds < fuel
      → Deltas i s
      → (t : Phase) × (delta_loop fuel n (n * per) i s ≡ some (all_sent t))
        × (t.scheme ≡ before ++ map (old_to_old n) (range 0 (n * per)))
  delta_loop_lem rounds zero i s h f a = absurd (omega arith)
  delta_loop_lem zero (suc fuel) i s h f a = (
    s,
    delta_loop-end fuel n (n * per) i s (omega arith),
    a.moves ∙ ap (λ k. before ++ map (old_to_old n) (range 0 k)) (omega arith),
  )
  delta_loop_lem (suc rounds) (suc fuel) i s h f a =
      let (e, _) =
        turn (from_zero n) n per i s.j s.send (from_zero-IsOrder n small) a.sender (omega arith)
          low in
      let (e', _) =
        turn (from_one n) n per i s.k s.recv (from_one-IsOrder n two small) a.receiver (omega arith)
          low in
      let (t, r, m) =
        delta_loop_lem rounds fuel (i + 1) (delta_send n s.j s.k s) (omega arith) (omega arith)
          (delta_send-Deltas i s (omega arith) a) in
      (t, delta_loop-send fuel n (n * per) i s (omega arith) e e' (Deltas-apart i s a) ∙ r, m)
