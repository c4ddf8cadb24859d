-- ===== src/Client/Peers.antt =====
-- The connections of `TCPClient` in src/tcp_client.cc, for a node of a cluster.
use stripe_merge.Common.{
  ℕ, zero, suc, ◌+◌, ◌-◌, ◌%◌, ◌^◌, ◌≤◌, ◌<◌, ◌≡◌, ◌≢◌, refl, sym, ap, ◌∙◌, subst, true, false,
  List, [], ◌∷◌, Option, none, some, arith, ◌==◌, if◌then◌else◌, length, get_elem?, set, replicate,
  range, length-set, get_or-set_self, get_or-set_ne, ℕ_discrete, length-replicate,
}
use native.Mathlib.Nat.{mod-eq_of_lt}
use stripe_merge.Pool.Tasks.{new_thread_pool}
use stripe_merge.Client.{
  SocketAddress, TcpClient, connect_one, connect_all, slot_for, conn_at, without, peers,
  all_connected, is_some, new_tcp_client,
}

-- The addresses of a cluster, the first one that of node `j`, without that of node `i`.
unfoldable pub others : ℕ → ℕ → List SocketAddress → List SocketAddress
others i j [] = []
others i j (a ∷ nodes) = if j == i then others i (j + 1) nodes else a ∷ others i (j + 1) nodes

next_slot : (j : ℕ) → j + 1 < 2 ^ 16 → (j + 1) % 2 ^ 16 ≡ j + 1
next_slot j h = mod-eq_of_lt h

connect_all-cons :
    (j : ℕ) (a : SocketAddress) (nodes : List SocketAddress) (c : TcpClient)
    → c.node_index ≢ j
    → j + 1 < 2 ^ 16
    → connect_all j (a ∷ nodes) c ≡ connect_all (j + 1) nodes (connect_one a j c)
unfolding connect_all
connect_all-cons j a nodes c ne h =
    let other : (j == c.node_index) ≡ false = ground (arith, ne) in rw (other, next_slot j h) refl

connect_all-skip :
    (j : ℕ) (nodes : List SocketAddress) (c : TcpClient)
    → c.node_index ≡ j
    → j + 2 < 2 ^ 16
    → connect_all j nodes c ≡ connect_all (j + 1) nodes c
unfolding connect_all
connect_all-skip j [] c e h = refl
connect_all-skip j (a ∷ nodes) c e h =
    let own : slot_for c.node_index j ≡ j + 1 = ground (arith, e, next_slot j (omega arith)) in
    let next_one : slot_for c.node_index (j + 1) ≡ j + 1 = ground (arith, e) in
    ap (λ k. connect_all ((k + 1) % 2 ^ 16) nodes (connect_one a k c)) (own ∙ sym next_one)

-- `connect_one` with an index that is not 0.
connect_one-conns :
    (a : SocketAddress) (j : ℕ) (c : TcpClient)
    → 0 < j
    → connect_one a j c ≡ record c { node_conns = set c.node_conns j (some a) }
unfolding connect_one
connect_one-conns a j c h =
    let other : (j == 0) ≡ false = ground arith in rw (connect_one, other) refl

shift : (j x : ℕ) → j + 1 + x ≡ j + suc x
shift j x = omega arith

shift_zero : (j : ℕ) → j ≡ j + 0
shift_zero j = omega arith

abbrev There : ℕ → ℕ → List SocketAddress → TcpClient → Type 0
There i j nodes t = (x : ℕ) → x < length nodes → j + x ≢ i → conn_at t (j + x) ≡ get_elem? nodes x

There-next :
    (i j x : ℕ) (nodes : List SocketAddress) (t : TcpClient)
    → suc x < length nodes + 1
    → j + suc x ≢ i
    → There i (j + 1) nodes t
    → conn_at t (j + suc x) ≡ get_elem? nodes x
There-next i j x nodes t p ne r =
    subst (λ y. conn_at t y ≡ get_elem? nodes x) (shift j x)
      (r x (omega (arith, p)) (λ q. ne (sym (shift j x) ∙ q)))

There-own :
    (i j : ℕ) (a : SocketAddress) (nodes : List SocketAddress) (t : TcpClient)
    → j ≡ i
    → There i (j + 1) nodes t
    → There i j (a ∷ nodes) t
There-own i j a nodes t e r zero p ne = absurd (ne (omega (arith, e)))
There-own i j a nodes t e r (suc x) p ne = There-next i j x nodes t (omega (arith, p)) ne r

There-other :
    (i j : ℕ) (a : SocketAddress) (nodes : List SocketAddress) (t : TcpClient)
    → conn_at t j ≡ some a
    → There i (j + 1) nodes t
    → There i j (a ∷ nodes) t
There-other i j a nodes t e r zero p ne = subst (λ y. conn_at t y ≡ some a) (shift_zero j) e
There-other i j a nodes t e r (suc x) p ne = There-next i j x nodes t (omega (arith, p)) ne r

-- The connections `j`, `j + 1`, … lead to the nodes of `nodes`, and the ones before are those of `c`.
pub record Connected (i j : ℕ) (nodes : List SocketAddress) (c t : TcpClient) : Type 0 where
  pub index : t.node_index ≡ c.node_index
  pub there : There i j nodes t
  pub before : (x : ℕ) → x < j → conn_at t x ≡ conn_at c x

pub others-own :
    (i j : ℕ) (a : SocketAddress) (nodes : List SocketAddress)
    → j ≡ i
    → others i j (a ∷ nodes) ≡ others i (j + 1) nodes
unfolding others
others-own i j a nodes e = ground (arith, e)

pub others-other :
    (i j : ℕ) (a : SocketAddress) (nodes : List SocketAddress)
    → j ≢ i
    → others i j (a ∷ nodes) ≡ a ∷ others i (j + 1) nodes
unfolding others
others-other i j a nodes ne = ground (arith, ne)

connect_all-Connected :
    (i j : ℕ) (nodes : List SocketAddress) (c : TcpClient)
    → c.node_index ≡ i
    → 0 < j
    → j + length nodes + 1 < 2 ^ 16
    → j + length nodes ≤ length c.node_conns
    → Connected i j nodes c (connect_all j (others i j nodes) c)
unfolding connect_all others
connect_all-Connected i j [] c e h l room = record {
  index = refl;
  there = λ x p. absurd (omega (arith, p));
  before = λ x p. refl;
}
connect_all-Connected i j (a ∷ nodes) c e h l room = elim (ℕ_discrete j i) [
  | yes same ↦
      let r = connect_all-Connected i (j + 1) nodes c e (omega arith) (omega arith) (omega arith) in
      subst (Connected i j (a ∷ nodes) c)
        (sym (
          ap (λ l. connect_all j l c) (others-own i j a nodes same)
          ∙ connect_all-skip j (others i (j + 1) nodes) c (e ∙ sym same) (omega arith)))
        (record {
          index = r.index;
          there =
              There-own i j a nodes (connect_all (j + 1) (others i (j + 1) nodes) c) same r.there;
          before = λ x p. r.before x (omega (arith, p));
        })
  | no other ↦
      let d = connect_one a j c in
      let conns = connect_one-conns a j c h in
      let size : length d.node_conns ≡ length c.node_conns =
        ap (λ (t : TcpClient). length t.node_conns) conns ∙ length-set c.node_conns j (some a) in
      let index : d.node_index ≡ c.node_index = ap (λ (t : TcpClient). t.node_index) conns in
      let r =
        connect_all-Connected i (j + 1) nodes d (index ∙ e) (omega arith) (omega arith)
          (omega (arith, size)) in
      let here : conn_at d j ≡ some a =
        ap (λ t. conn_at t j) conns ∙ get_or-set_self c.node_conns j (some a) none (omega arith) in
      subst (Connected i j (a ∷ nodes) c)
        (sym (
          ap (λ l. connect_all j l c) (others-other i j a nodes other)
          ∙ connect_all-cons j a (others i (j + 1) nodes) c (λ q. other (sym q ∙ e)) (omega arith)))
        (record {
          index = r.index ∙ index;
          there =
              There-other i j a nodes (connect_all (j + 1) (others i (j + 1) nodes) d)
                (r.before j (omega arith) ∙ here) r.there;
          before = λ x p.
              r.before x (omega (arith, p))
              ∙ ap (λ t. conn_at t x) conns
              ∙ get_or-set_ne c.node_conns j x (some a) none (λ q. omega (arith, p, q));
        })
]

all_connected-without :
    (i j k : ℕ) (c : TcpClient)
    → ((y : ℕ) → j ≤ y → y < j + k → y ≢ i → is_some (conn_at c y) ≡ true)
    → all_connected c (without i (range j k)) ≡ true
unfolding all_connected without
all_connected-without i j zero c h = refl
all_connected-without i j (suc k) c h =
    let rest =
      all_connected-without i (j + 1) k c
        (λ y p q ne. h y (omega (arith, p)) (omega (arith, q)) ne) in
    elim (ℕ_discrete j i) [
      | yes same ↦ ground (arith, same, rest)
      | no other ↦
          let here = h j (omega arith) (omega arith) other in
          let ne : (j == i) ≡ false = ground (arith, other) in rw (ne, here) rest
    ]

length-others_off :
    (i j : ℕ) (nodes : List SocketAddress) → i < j → length (others i j nodes) ≡ length nodes
unfolding others
length-others_off i j [] h = refl
length-others_off i j (a ∷ nodes) h =
    ground (arith, length-others_off i (j + 1) nodes (omega arith))

length-others :
    (i j : ℕ) (nodes : List SocketAddress)
    → j ≤ i
    → i < j + length nodes
    → length (others i j nodes) + 1 ≡ length nodes
unfolding others
length-others i j [] h l = absurd (omega arith)
length-others i j (a ∷ nodes) h l = elim (ℕ_discrete j i) [
  | yes same ↦ ground (arith, same, length-others_off i (j + 1) nodes (omega arith))
  | no other ↦ ground (arith, other, length-others i (j + 1) nodes (omega arith) (omega arith))
]

is_some-get_elem? :
    (nodes : List SocketAddress) (x : ℕ) → x < length nodes → is_some (get_elem? nodes x) ≡ true
is_some-get_elem? [] x h = absurd (omega arith)
is_some-get_elem? (a ∷ nodes) zero h = refl
is_some-get_elem? (a ∷ nodes) (suc x) h = is_some-get_elem? nodes x (omega arith)

-- The number of the other nodes and the bound of the loops over them.
pub others-count :
    (i : ℕ) (nodes : List SocketAddress)
    → i ≤ length nodes
    → length (others i 1 nodes) + (if i == 0 then 0 else 1) ≡ length nodes
others-count i nodes h = elim (ℕ_discrete i 0) [
  | yes e ↦ ground (arith, length-others_off i 1 nodes (omega arith), e)
  | no ne ↦ ground (arith, length-others i 1 nodes (omega arith) (omega arith), ne)
]

reached :
    (i : ℕ) (nodes : List SocketAddress) (c t : TcpClient)
    → Connected i 1 nodes c t
    → (x : ℕ) → x < length nodes
    → suc x ≢ i
    → conn_at t (suc x) ≡ get_elem? nodes x
reached i nodes c t r x p ne =
    let e : 1 + x ≡ suc x = omega arith in
    subst (λ z. conn_at t z ≡ get_elem? nodes x) e (r.there x p (λ o. ne (sym e ∙ o)))

-- When node `i`, 0 for the master, is given the addresses of the other nodes of the cluster, in
-- their order, and there are fewer than 2^16 - 2 nodes, its client is made, and connection `j` leads
-- to node `j` for each node `j` other than `i`.
pub new_tcp_client_lem :
    (i : ℕ) (nodes : List SocketAddress)
    → i ≤ length nodes
    → length nodes + 2 < 2 ^ 16
    → (c : TcpClient) × (new_tcp_client i (others i 1 nodes) ≡ some c)
      × (c.node_index ≡ i)
      × ((x : ℕ) → x < length nodes → suc x ≢ i → conn_at c (suc x) ≡ get_elem? nodes x)
unfolding new_tcp_client peers new_thread_pool
new_tcp_client_lem i nodes h l =
    let count = others-count i nodes h in
    let slots : List (Option SocketAddress) = replicate (length (others i 1 nodes) + 2) none in
    let size : length slots ≡ length (others i 1 nodes) + 2 =
      length-replicate (length (others i 1 nodes) + 2) none in
    let start : TcpClient = record {
      pool = new_thread_pool;
      node_index = i;
      conn = none;
      node_conns = slots;
      req_mtxs = true;
      conn_num = length (others i 1 nodes) % 2 ^ 16;
      sent = [];
    } in
    let room : length nodes ≤ length (others i 1 nodes) + 1 = ground (arith, count) in
    let r =
      connect_all-Connected i 1 nodes start refl (omega arith) (omega arith)
        (omega (arith, size, room)) in
    let c = connect_all 1 (others i 1 nodes) start in
    let whole : length (others i 1 nodes) % 2 ^ 16 + (if i == 0 then 0 else 1) ≡ length nodes =
      ground (arith, count) in
    let made = all_connected-without i 1 (length nodes) c (λ y p q ne.
      let x : ℕ = y - 1 in
      let e : 1 + x ≡ y = omega (arith, p) in
      ap is_some (
        subst (λ z. conn_at c z ≡ get_elem? nodes x) e
          (r.there x (omega (arith, p, q)) (λ o. ne (sym e ∙ o))))
      ∙ is_some-get_elem? nodes x (omega (arith, p, q))) in
    (c, rw (whole, made) refl, r.index, λ x p ne. reached i nodes start c r x p ne)
