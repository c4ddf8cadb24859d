-- ===== src/NcScale/Migrations.antt =====
-- The first loop of `NCScaleSimulation::get_scheme`, which moves the data blocks.
use stripe_merge.Common.{
  ℕ, zero, suc, ◌+◌, ◌*◌, ◌^◌, ◌<◌, ◌≡◌, refl, sym, ap, ap₂, ◌∙◌, [], ◌∷◌, ◌++◌, arith, map, range,
  some,
}
use stripe_merge.Migration.{migration}
use stripe_merge.NcScale.{Phase, next, take_one, migrate_round, migrate}
use stripe_merge.NcScale.Phases.{
  from_zero, old_to_new, Sends, turn, turn-mod, moves-next, from_zero-IsOrder,
}

module _ (n rs_k per per' : ℕ) (small : n < 2 ^ 32) (small' : rs_k < 2 ^ 32) (low : per < 2 ^ 32)
    (low' : per' < 2 ^ 32) where
  abbrev Migrates : ℕ → Phase → Type 0
  Migrates i s = Sends (from_zero n) (from_zero rs_k) n rs_k per per' (old_to_new n rs_k) [] i s

  abbrev migrated : Phase → Phase
  migrated s = record s {
    scheme = s.scheme ++ migration (s.j + 1) (s.k + n + 1) 0 ∷ [];
    send = take_one s.send s.j;
    recv = take_one s.recv s.k;
    j = next n s.j;
    k = next rs_k s.k;
  }

  migrate_round_lem :
      (i : ℕ) (s : Phase)
      → i < n * per
      → i < rs_k * per'
      → Migrates i s
      → (migrate_round n rs_k s ≡ some (migrated s)) × Migrates (i + 1) (migrated s)
  unfolding migrate_round
  migrate_round_lem i s h h' a =
      let (sent, next_sender) =
        turn (from_zero n) n per i s.j s.send (from_zero-IsOrder n small) a.sender h low in
      let (got, next_receiver) =
        turn (from_zero rs_k) rs_k per' i s.k s.recv (from_zero-IsOrder rs_k small') a.receiver h'
          low' in
      (
        rw (sent, got) refl,
        record {
          sender = next_sender;
          receiver = next_receiver;
          moves = moves-next (old_to_new n rs_k) [] s.scheme i _ a.moves (
              ap₂ (λ x y. migration (x + 1) (y + n + 1) 0)
                (sym (turn-mod n per i s.j s.send a.sender))
                (sym (turn-mod rs_k per' i s.k s.recv a.receiver)));
        },
      )

  -- The first loop sends the blocks in turn, round by round.
  pub migrate_lem :
      (rounds i : ℕ) (s : Phase)
      → i + rounds ≡ n * per
      → i + rounds ≡ rs_k * per'
      → Migrates i s
      → (t : Phase) × (migrate n rs_k rounds s ≡ some t)
        × (t.scheme ≡ map (old_to_new n rs_k) (range 0 (i + rounds)))
        × (t.send_empty_count ≡ s.send_empty_count)
        × (t.recv_empty_count ≡ s.recv_empty_count)
  unfolding migrate
  migrate_lem zero i s h h' a =
      (s, refl, a.moves ∙ ap (λ k. map (old_to_new n rs_k) (range 0 k)) (omega arith), refl, refl)
  migrate_lem (suc rounds) i s h h' a =
      let (e, b) = migrate_round_lem i s (omega arith) (omega arith) a in
      let (t, r, m, c, d) = migrate_lem rounds (i + 1) (migrated s) (omega arith) (omega arith) b in
      (t, rw e r, m ∙ ap (λ k. map (old_to_new n rs_k) (range 0 k)) (omega arith), c, d)
