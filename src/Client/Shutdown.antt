-- ===== src/Client/Shutdown.antt =====
-- `TCPClient::send_shutdown_signal` of src/tcp_client.cc in a cluster.
use mathlib.Core.List.{append_assoc, append-nil}
use mathlib.Core.Option.{none-ne-some, some-injective}
use stripe_merge.Common.{
  ℕ, suc, ◌+◌, ◌%◌, ◌^◌, ◌≤◌, ◌<◌, ◌≡◌, ◌≢◌, refl, sym, ap, ap₂, ◌∙◌, subst, true, false, List, [],
  ◌∷◌, ◌++◌, Option, none, some, map, arith, ◌==◌, if◌then◌else◌, length, get_elem?, set, range,
  get_or, replicate, get_or-set_ne, Bool-cases, inl, inr, ℕ_discrete,
}
use stripe_merge.Migration.{blank_task}
use stripe_merge.Pool.Tasks.{new_thread_pool}
use stripe_merge.Client.{
  SocketAddress, Message, TcpClient, connect_one, connect_all, slot_for, without, peers, conn_at,
  all_connected, new_tcp_client, signal_all, send_shutdown_signal,
}
use stripe_merge.Client.Peers.{others, others-own, others-other, others-count, new_tcp_client_lem}

-- The signal to stop, as it goes to one node.
abbrev pub farewell : SocketAddress → Message
farewell address = record { to = address; header = blank_task; with_chunk = false }

pub without-own : (i : ℕ) (xs : List ℕ) → without i (i ∷ xs) ≡ without i xs
unfolding without
without-own i xs = ground arith

pub without-other : (i x : ℕ) (xs : List ℕ) → x ≢ i → without i (x ∷ xs) ≡ x ∷ without i xs
unfolding without
without-other i x xs ne = ground (arith, ne)

signal_all_lem :
    (i j : ℕ) (nodes : List SocketAddress) (c : TcpClient)
    → ((x : ℕ) → x < length nodes → j + x ≢ i → conn_at c (j + x) ≡ get_elem? nodes x)
    → (d : TcpClient) × (signal_all (without i (range j (length nodes))) c ≡ some d)
      × (d.sent ≡ c.sent ++ map farewell (others i j nodes))
unfolding signal_all without others
signal_all_lem i j [] c h = (c, refl, sym (append-nil c.sent))
signal_all_lem i j (a ∷ nodes) c h = elim (ℕ_discrete j i) [
  | yes e ↦
      let (d, made, sent) = signal_all_lem i (j + 1) nodes c (λ x l ne.
        let shift : j + 1 + x ≡ j + suc x = omega arith in
        ap (conn_at c) shift ∙ h (suc x) (omega (arith, l)) (λ o. ne (shift ∙ o))) in
      (
        d,
        ap (λ xs. signal_all xs c)
              (subst
                (λ y.
                  without i (y ∷ range (j + 1) (length nodes))
                  ≡ without i (range (j + 1) (length nodes)))
                (sym e) (without-own i (range (j + 1) (length nodes))))
            ∙ made,
        sent ∙ ap (λ to. c.sent ++ map farewell to) (sym (others-own i j a nodes e)),
      )
  | no ne ↦
      let told : TcpClient = record c {
        node_conns = set c.node_conns j none;
        sent = c.sent ++ farewell a ∷ [];
      } in
      let same : j + 0 ≡ j = omega arith in
      let conn : conn_at c j ≡ some a =
        ap (conn_at c) (sym same) ∙ h 0 (omega arith) (λ o. ne (sym same ∙ o)) in
      let (d, made, sent) = signal_all_lem i (j + 1) nodes told (λ x l no_i.
        let shift : j + 1 + x ≡ j + suc x = omega arith in
        get_or-set_ne c.node_conns j (j + 1 + x) none none (λ o. omega (arith, o))
        ∙ ap (conn_at c) shift
        ∙ h (suc x) (omega (arith, l)) (λ o. no_i (shift ∙ o))) in
      (
        d,
        ap (λ xs. signal_all xs c) (without-other i j (range (j + 1) (length nodes)) ne)
            ∙ (rw (signal_all, conn) made),
        sent
            ∙ append_assoc c.sent (farewell a ∷ []) (map farewell (others i (j + 1) nodes))
            ∙ ap (λ to. c.sent ++ map farewell to) (sym (others-other i j a nodes ne)),
      )
]

-- The members that the connections leave alone.
abbrev Kept : TcpClient → TcpClient → Type 0
Kept c d = (d.conn_num ≡ c.conn_num) × (d.sent ≡ c.sent) × (d.req_mtxs ≡ c.req_mtxs)

connect_one-Kept : (a : SocketAddress) (k : ℕ) (c : TcpClient) → Kept c (connect_one a k c)
unfolding connect_one
connect_one-Kept a k c = elim (Bool-cases (k == 0)) [
  | inl e ↦ rw (connect_one, e) (refl, refl, refl)
  | inr e ↦ rw (connect_one, e) (refl, refl, refl)
]

connect_all-Kept : (k : ℕ) (sa : List SocketAddress) (c : TcpClient) → Kept c (connect_all k sa c)
unfolding connect_all
connect_all-Kept k [] c = (refl, refl, refl)
connect_all-Kept k (a ∷ sa) c =
    let slot : ℕ = slot_for c.node_index k in
    let (num, sent, mtxs) = connect_all-Kept ((slot + 1) % 2 ^ 16) sa (connect_one a slot c) in
    let (num', sent', mtxs') = connect_one-Kept a slot c in (num ∙ num', sent ∙ sent', mtxs ∙ mtxs')

pub new_tcp_client-members :
    (i : ℕ) (sa : List SocketAddress) (c : TcpClient)
    → new_tcp_client i sa ≡ some c
    → (c.conn_num ≡ length sa % 2 ^ 16) × (c.sent ≡ []) × (c.req_mtxs ≡ true)
unfolding new_tcp_client
new_tcp_client-members i sa c e =
    let start : TcpClient = record {
      pool = new_thread_pool;
      node_index = i;
      conn = none;
      node_conns = replicate (length sa + 2) none;
      req_mtxs = true;
      conn_num = length sa % 2 ^ 16;
      sent = [];
    } in
    let made : TcpClient = connect_all 1 sa start in
    elim (Bool-cases (all_connected made (peers i (length sa % 2 ^ 16)))) [
      | inl h ↦
          subst (Kept start) (some-injective made c (rw (new_tcp_client, h) at e))
            (connect_all-Kept 1 sa start)
      | inr h ↦ absurd (none-ne-some c (rw (new_tcp_client, h) at e))
    ]

-- For a client made as in `new_tcp_client_lem`, in any later state with the same connections,
-- `send_shutdown_signal` does not exit, and the signal goes to every other node of the cluster, once
-- each and in the order of the nodes.
pub send_shutdown_signal_lem :
    (i : ℕ) (nodes : List SocketAddress)
    → i ≤ length nodes
    → length nodes + 2 < 2 ^ 16
    → (c : TcpClient) × (new_tcp_client i (others i 1 nodes) ≡ some c)
      × ((s : TcpClient)
          → s.node_index ≡ c.node_index
          → s.node_conns ≡ c.node_conns
          → s.conn_num ≡ c.conn_num
          → (d : TcpClient) × (send_shutdown_signal s ≡ some d)
            × (d.sent ≡ s.sent ++ map farewell (others i 1 nodes)))
unfolding send_shutdown_signal peers
send_shutdown_signal_lem i nodes h small =
    let (c, made, index, conns) = new_tcp_client_lem i nodes h small in
    let count = others-count i nodes h in
    let (num, _, _) = new_tcp_client-members i (others i 1 nodes) c made in
    (
      c,
      made,
      λ s same_index same_conns same_num.
          let own : s.node_index ≡ i = same_index ∙ index in
          let whole : s.conn_num + (if s.node_index == 0 then 0 else 1) ≡ length nodes =
            ground (arith, count, num, same_num, own) in
          let (d, sends, sent) = signal_all_lem i 1 nodes s (λ x l ne.
            let e : 1 + x ≡ suc x = omega arith in
            ap (λ (cs : List (Option SocketAddress)). get_or cs (1 + x) none) same_conns
            ∙ ap (conn_at c) e
            ∙ conns x l (λ o. ne (e ∙ o))) in
          (d, ap₂ (λ y n. signal_all (without y (range 1 n)) s) own whole ∙ sends, sent),
    )
