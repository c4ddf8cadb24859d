-- ===== src/Server/Accepting.antt =====
-- `wait_for_connection` of src/tcp_server.cc.
use stripe_merge.Common.{
  ℕ, suc, ◌+◌, ◌-◌, ◌%◌, ◌^◌, ◌≤◌, ◌<◌, ◌≡◌, refl, sym, ap, ◌∙◌, true, false, List, [], ◌∷◌, ◌++◌,
  Option, none, some, map, arith, ◌==◌, ltb, ltb→lt, if◌then◌else◌, length, take, All, Bool-cases,
  inl, inr,
}
use mathlib.Core.List.{append_assoc, append-nil}

-- What `acc.accept` returns: no socket, or one with the index that `read_n` then reads, if it reads one.
pub data Accept {ℓ} (Sock : Type ℓ) : Type ℓ where
  refused : Accept Sock
  accepted : Sock → Option ℕ → Accept Sock

-- A thread of `thr`: `receive_handler` on a connection, or `run` on `master_sock`.
pub data Serving {ℓ} (Sock : Type ℓ) : Type ℓ where
  serves_node : Sock → Serving Sock
  serves_master : Serving Sock

-- `client_index` keeps its value where `read_n` fails.
pub record Connections {ℓ} (Sock : Type ℓ) : Type ℓ where
  pub client_index : ℕ
  pub master_sock : Option Sock
  pub thr : List (Serving Sock)

abbrev pub index_after : Option ℕ → ℕ → ℕ
index_after none client_index = client_index
index_after (some x) client_index = x

module _ {ℓ} {Sock : Type ℓ} where
  -- A round for a socket: a data node has an index, the master has 0.
  unfoldable pub serve_connection : Sock → Option ℕ → Connections Sock → Connections Sock
  serve_connection sock answer s =
      let index = index_after answer s.client_index in
      if index == 0
      then record s {
        client_index = index;
        master_sock = some sock;
        thr = s.thr ++ serves_master ∷ [];
      }
      else record s { client_index = index; thr = s.thr ++ serves_node sock ∷ [] }

  -- The loop, on what `accept` returns in turn, from the `i`-th connection on; `none` while it waits.
  unfoldable pub wait_for_connection :
      ℕ → ℕ → List (Accept Sock) → Connections Sock → Option (Connections Sock)
  unfolding serve_connection
  wait_for_connection serving_num i [] s = if ltb i serving_num then none else some s
  wait_for_connection serving_num i (a ∷ rest) s = elim (ltb i serving_num) [
    | false ↦ some s
    | true ↦ elim a [
      | refused ↦ wait_for_connection serving_num i rest s
      | accepted sock answer ↦
          wait_for_connection serving_num ((i + 1) % 2 ^ 16) rest (serve_connection sock answer s)
    ]
  ]

  -- Every socket sends an index.
  abbrev pub Answers : Accept Sock → Type 0
  Answers refused = Unit
  Answers (accepted sock none) = ⊥
  Answers (accepted sock (some x)) = Unit

  abbrev pub thread_for : Sock × ℕ → Serving Sock
  thread_for (sock, x) = if x == 0 then serves_master else serves_node sock

  -- The sockets with their indexes, in the order in which they come.
  abbrev pub answers : List (Accept Sock) → List (Sock × ℕ)
  answers [] = []
  answers (refused ∷ rest) = answers rest
  answers (accepted sock none ∷ rest) = answers rest
  answers (accepted sock (some x) ∷ rest) = (sock, x) ∷ answers rest

  serve_connection-thr :
      (sock : Sock) (x : ℕ) (s : Connections Sock)
      → (serve_connection sock (some x) s).thr ≡ s.thr ++ thread_for (sock, x) ∷ []
  unfolding serve_connection
  serve_connection-thr sock x s = elim (Bool-cases (x == 0)) [
    | inl e ↦
        let read : (index_after (some x) s.client_index == 0) ≡ true = e in
        rw (serve_connection, read) refl
    | inr e ↦
        let read : (index_after (some x) s.client_index == 0) ≡ false = e in
        rw (serve_connection, read) refl
  ]

  -- The outcome of the loop from the `i`-th connection on.
  abbrev Outcome : ℕ → ℕ → List (Accept Sock) → Connections Sock → Type ℓ
  Outcome n i xs s =
      (t : Connections Sock) × (wait_for_connection n i xs s ≡ some t)
      × (t.thr ≡ s.thr ++ map thread_for (take (n - i) (answers xs)))

  -- A round, where the loop does what it should on the rest.
  waited_more :
      (n i : ℕ) (a : Accept Sock) (rest : List (Accept Sock)) (s : Connections Sock)
      → n < 2 ^ 16
      → i < n
      → ltb i n ≡ true
      → n ≤ i + length (answers (a ∷ rest))
      → All Answers (a ∷ rest)
      → ((i : ℕ) (s : Connections Sock)
          → i ≤ n
          → n ≤ i + length (answers rest)
          → Outcome n i rest s)
      → Outcome n i (a ∷ rest) s
  unfolding wait_for_connection
  waited_more n i refused rest s small below more enough told next =
      let (t, e, threads) = next i s (omega (arith, below)) enough in
      (t, rw (wait_for_connection, more) e, threads)
  waited_more n i (accepted sock none) rest s small below more enough told next = absurd told.0
  waited_more n i (accepted sock (some x)) rest s small below more enough told next =
      let wrap : (i + 1) % 2 ^ 16 ≡ i + 1 = omega (arith, below, small) in
      let one : n - i ≡ suc (n - (i + 1)) = omega (arith, below) in
      let (t, e, threads) =
        next (i + 1) (serve_connection sock (some x) s) (omega (arith, below))
          (omega (arith, enough)) in
      (
        t,
        rw (wait_for_connection, more)
            (ap (λ k. wait_for_connection n k rest (serve_connection sock (some x) s)) wrap ∙ e),
        threads
            ∙ ap (λ ys. ys ++ map thread_for (take (n - (i + 1)) (answers rest)))
                (serve_connection-thr sock x s)
            ∙ append_assoc s.thr (thread_for (sock, x) ∷ [])
                (map thread_for (take (n - (i + 1)) (answers rest)))
            ∙ ap (λ k. s.thr ++ map thread_for (take k ((sock, x) ∷ answers rest))) (sym one),
      )

  waited :
      (serving_num i : ℕ) (xs : List (Accept Sock)) (s : Connections Sock)
      → serving_num < 2 ^ 16
      → i ≤ serving_num
      → serving_num ≤ i + length (answers xs)
      → All Answers xs
      → Outcome serving_num i xs s
  unfolding wait_for_connection
  waited n i [] s small h enough told =
      let over : ltb i n ≡ false = ground (arith, enough) in
      let none_left : n - i ≡ 0 = omega (arith, enough) in
      (s, rw (wait_for_connection, over) refl, rw none_left (sym (append-nil s.thr)))
  waited n i (a ∷ rest) s small h enough told = elim (Bool-cases (ltb i n)) [
    | inr over ↦
        let none_left : n - i ≡ 0 = ground (arith, over) in
        (s, rw (wait_for_connection, over) refl, rw none_left (sym (append-nil s.thr)))
    | inl more ↦
        waited_more n i a rest s small (ltb→lt i n more) more enough told
          (λ k t le room. waited n k rest t small le room told.1)
  ]

  -- When every socket that is accepted sends an index, and there are as many as the server is to
  -- wait for, fewer than 2^16, then `wait_for_connection` returns, whatever calls of `accept` fail
  -- in between, and its threads are those for the sockets in the order in which they came: the
  -- reader of the master for index 0, else a receiver.
  pub wait_for_connection_lem :
      (serving_num garbage : ℕ) (xs : List (Accept Sock))
      → serving_num < 2 ^ 16
      → serving_num ≤ length (answers xs)
      → All Answers xs
      → (t : Connections Sock) × (wait_for_connection serving_num 0 xs
            (record { client_index = garbage; master_sock = none; thr = [] })
          ≡ some t)
        × (t.thr ≡ map thread_for (take serving_num (answers xs)))
  wait_for_connection_lem n garbage xs small enough told =
      let (t, e, threads) =
        waited n 0 xs (record { client_index = garbage; master_sock = none; thr = [] }) small
          (omega arith) (omega (arith, enough)) told in
      let whole : n - 0 ≡ n = omega arith in
      (t, e, threads ∙ ap (λ k. map thread_for (take k (answers xs))) whole)
