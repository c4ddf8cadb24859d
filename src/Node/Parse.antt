-- ===== src/Node/Parse.antt =====
-- `TCPNode::parse_config` of src/tcp_node.cc, on the file of a cluster, and the connections made from it.
use Prim.Native.String.{String}
use mathlib.Core.Bool.{false≢true}
use mathlib.Core.List.{append_assoc, append-nil}
use stripe_merge.Common.{
  Bool, ℕ, zero, suc, ◌+◌, ◌-◌, ◌*◌, ◌%◌, ◌^◌, ◌≤◌, ◌<◌, ◌≡◌, ◌≢◌, refl, sym, ap, ap₂, ◌∙◌, true,
  false, List, [], ◌∷◌, ◌++◌, Option, none, some, arith, ltb, ◌==◌, if◌then◌else◌, length,
  get_elem?, Bool-cases, inl, inr,
}
use stripe_merge.Client.{SocketAddress, TcpClient, new_tcp_client, conn_at}
use stripe_merge.Client.Peers.{others, new_tcp_client_lem}
use stripe_merge.Node.{
  Fstream, Config, Lines, add_address, parse_lines, parse_config, Parsed, unfinished, aborts,
  parsed,
}

-- The port of node `i`, where the first of the nodes is node `j`.
abbrev pub port_of : ℕ → ℕ → List SocketAddress → Option ℕ → Option ℕ
port_of i j [] p = p
port_of i j (a ∷ nodes) p = port_of i (j + 1) nodes (if j == i then some a.port else p)

port_of-off :
    (i j : ℕ) (nodes : List SocketAddress) (p : Option ℕ) → i < j → port_of i j nodes p ≡ p
port_of-off i j [] p h = refl
port_of-off i j (a ∷ nodes) p h =
    let ne : (j == i) ≡ false = ground arith in rw ne (port_of-off i (j + 1) nodes p (omega arith))

abbrev pub port_at : List SocketAddress → ℕ → Option ℕ
port_at [] x = none
port_at (a ∷ nodes) zero = some a.port
port_at (a ∷ nodes) (suc x) = port_at nodes x

port_of_lem :
    (i j x : ℕ) (nodes : List SocketAddress) (p : Option ℕ)
    → j + x ≡ i
    → x < length nodes
    → port_of i j nodes p ≡ port_at nodes x
port_of_lem i j x [] p e h = absurd (omega arith)
port_of_lem i j zero (a ∷ nodes) p e h =
    let own : (j == i) ≡ true = ground (arith, e) in
    rw own (port_of-off i (j + 1) nodes (some a.port) (omega arith))
port_of_lem i j (suc x) (a ∷ nodes) p e h =
    let ne : (j == i) ≡ false = ground (arith, e) in
    rw ne (port_of_lem i (j + 1) x nodes p (omega arith) (omega arith))

own_port :
    (i : ℕ) (nodes : List SocketAddress)
    → i ≤ length nodes
    → port_of i 1 nodes none ≡ (if i == 0 then none else port_at nodes (i - 1))
own_port zero nodes h = port_of-off 0 1 nodes none (omega arith)
own_port (suc i) nodes h =
    let ne : (suc i == 0) ≡ false = ground arith in
    rw ne (port_of_lem (suc i) 1 (suc i - 1) nodes none (omega arith) (omega arith))

-- The local variables of the loop behind lines for `nodes`.
abbrev lines_after : ℕ → Lines → List SocketAddress → Lines
lines_after i l nodes = record {
  num = l.num + length nodes;
  self_port = port_of i l.num nodes l.self_port;
  targets = l.targets ++ others i l.num nodes;
}

lines_after-nil : (i : ℕ) (l : Lines) → l ≡ lines_after i l []
unfolding others
lines_after-nil i l =
    let more : l.num ≡ l.num + 0 = omega arith in
    ap₂ (λ n ts. record l { num = n; targets = ts }) more (sym (append-nil l.targets))

num-next :
    (i : ℕ) (l : Lines) (a : SocketAddress)
    → l.num + 1 < 2 ^ 16
    → (add_address i a l).num ≡ l.num + 1
unfolding add_address
num-next i l a h = ground arith

lines_after-cons :
    (i : ℕ) (l : Lines) (a : SocketAddress) (rest : List SocketAddress)
    → l.num + 1 < 2 ^ 16
    → lines_after i (add_address i a l) rest ≡ lines_after i l (a ∷ rest)
unfolding add_address others
lines_after-cons i l a rest h =
    let next : (l.num + 1) % 2 ^ 16 ≡ l.num + 1 = omega arith in
    let more : l.num + 1 + length rest ≡ l.num + suc (length rest) = omega arith in
    elim (Bool-cases (l.num == i)) [
      | inl own ↦
          rw (own, next)
            (ap
              (λ n. record {
                num = n;
                self_port = port_of i (l.num + 1) rest (some a.port);
                targets = l.targets ++ others i (l.num + 1) rest;
              })
              more)
      | inr other ↦
          rw (other, next)
            (ap₂
              (λ n ts. record {
                num = n;
                self_port = port_of i (l.num + 1) rest l.self_port;
                targets = ts;
              })
              more (append_assoc l.targets (a ∷ []) (others i (l.num + 1) rest)))
    ]

module _ {S : Type 0} (io : Fstream S) where
  -- What a line reads as, and the stream after it.
  abbrev pub line_at : S → SocketAddress
  line_at s = record { ip = (io.read_word s).0; port = (io.read_number (io.read_word s).1).0 }

  abbrev pub after_line : S → S
  after_line s = (io.read_number (io.read_word s).1).1

  abbrev pub after_params : S → S
  after_params s = (io.read_number (io.read_number s).1).1

  -- The stream has a line for each node and no more. It may end with the last line or fail behind it.
  pub data Holds : S → List SocketAddress → Type 0 where
    ended : {s : S} → io.eof s ≡ true → Holds s []
    failed : {s : S} → io.eof s ≡ false → io.fail (after_line s) ≡ true → Holds s []
    line :
        {s : S} {rest : List SocketAddress}
        → io.eof s ≡ false
        → io.fail (after_line s) ≡ false
        → Holds (after_line s) rest
        → Holds s (line_at s ∷ rest)

  parse_lines_lem :
      (fuel i : ℕ) (s : S) (l : Lines) (nodes : List SocketAddress)
      → Holds s nodes
      → length nodes < fuel
      → l.num + length nodes < 2 ^ 16
      → parse_lines io fuel i s l ≡ some (lines_after i l nodes)
  unfolding parse_lines
  parse_lines_lem zero i s l nodes h f b = absurd (omega arith)
  parse_lines_lem (suc fuel) i s l _ (ended e) f b =
      rw (parse_lines, e) (ap some (lines_after-nil i l))
  parse_lines_lem (suc fuel) i s l _ (failed e g) f b =
      rw (parse_lines, e, g) (ap some (lines_after-nil i l))
  parse_lines_lem (suc fuel) i s l _ (line {rest = rest} e g h) f b =
      let next : (add_address i (line_at s) l).num ≡ l.num + 1 =
        num-next i l (line_at s) (omega arith) in
      rw (parse_lines, e, g)
        (parse_lines_lem fuel i (after_line s) (add_address i (line_at s) l) rest h (omega arith)
            (omega (arith, next))
          ∙ ap some (lines_after-cons i l (line_at s) rest (omega arith)))

  -- On a file that opens and that lists at least one node and fewer than 2^16 - 2, with `i` 0 or one
  -- of them and fuel for the lines, `parse_config` returns with `k` and `m` of the first line, the
  -- number of nodes and the port of node `i`, and the client made from its targets has, for each
  -- node `j` other than `i`, connection `j` lead to that node.
  pub parse_config_lem :
      (fuel i : ℕ) (fn : String) (s : S) (nodes : List SocketAddress)
      → io.start fn ≡ some s
      → io.eof s ≡ false
      → Holds (after_params s) nodes
      → 0 < length nodes
      → i ≤ length nodes
      → length nodes + 2 < 2 ^ 16
      → length nodes < fuel
      → (cfg : Config) × (c : TcpClient) × (parse_config io fuel i fn ≡ parsed cfg)
        × (cfg.rs_k ≡ (io.read_number s).0)
        × (cfg.rs_m ≡ (io.read_number (io.read_number s).1).0)
        × (cfg.node_num ≡ length nodes)
        × (cfg.self_port ≡ (if i == 0 then none else port_at nodes (i - 1)))
        × (new_tcp_client i cfg.targets ≡ some c)
        × ((x : ℕ) → x < length nodes → suc x ≢ i → conn_at c (suc x) ≡ get_elem? nodes x)
  unfolding parse_config
  parse_config_lem fuel i fn s nodes opened more lines two_up member small enough =
      let l : Lines = record { num = 1; self_port = none; targets = [] } in
      let e = parse_lines_lem fuel i (after_params s) l nodes lines enough (omega arith) in
      let (c, made, _, conns) = new_tcp_client_lem i nodes member small in
      let two : ltb (1 + length nodes) 2 ≡ false = ground arith in
      let after : Lines = lines_after i l nodes in
      (
        record {
          rs_k = (io.read_number s).0;
          rs_m = (io.read_number (io.read_number s).1).0;
          n = (2 * (io.read_number s).0 + (io.read_number (io.read_number s).1).0) % 2 ^ 32;
          self_port = after.self_port;
          targets = after.targets;
          node_num = after.num - 1;
        },
        c,
        rw (parse_config, opened, more, e, two) refl,
        refl,
        refl,
        omega arith,
        own_port i nodes member,
        made,
        conns,
      )

  is_parsed : Parsed → Bool
  is_parsed unfinished = false
  is_parsed aborts = false
  is_parsed (parsed cfg) = true

  is_aborts : Parsed → Bool
  is_aborts unfinished = false
  is_aborts aborts = true
  is_aborts (parsed cfg) = false

  -- On a file that opens, is not at its end before the parameters and lists fewer than 2^16 - 1
  -- nodes, with fuel for the lines, `parse_config` does not run out of fuel, and it exits with an
  -- error if and only if the file lists no node.
  pub parse_config_aborts :
      (fuel i : ℕ) (fn : String) (s : S) (nodes : List SocketAddress)
      → io.start fn ≡ some s
      → io.eof s ≡ false
      → Holds (after_params s) nodes
      → length nodes + 1 < 2 ^ 16
      → length nodes < fuel
      → (parse_config io fuel i fn ≡ aborts → nodes ≡ [])
        × (nodes ≡ [] → parse_config io fuel i fn ≡ aborts)
        × (parse_config io fuel i fn ≢ unfinished)
  unfolding parse_config is_aborts is_parsed
  parse_config_aborts fuel i fn s [] opened more lines small enough =
      let l : Lines = record { num = 1; self_port = none; targets = [] } in
      let e = parse_lines_lem fuel i (after_params s) l [] lines enough (omega arith) in
      let ended : parse_config io fuel i fn ≡ aborts = rw (parse_config, opened, more, e) refl in
      (λ u. refl, λ u. ended, λ u. false≢true (ap is_aborts (sym u ∙ ended)))
  parse_config_aborts fuel i fn s (a ∷ rest) opened more lines small enough =
      let l : Lines = record { num = 1; self_port = none; targets = [] } in
      let e =
        parse_lines_lem fuel i (after_params s) l (a ∷ rest) lines enough (omega (arith, small)) in
      let two : ltb (1 + suc (length rest)) 2 ≡ false = ground arith in
      let after : Lines = lines_after i l (a ∷ rest) in
      let cfg : Config = record {
        rs_k = (io.read_number s).0;
        rs_m = (io.read_number (io.read_number s).1).0;
        n = (2 * (io.read_number s).0 + (io.read_number (io.read_number s).1).0) % 2 ^ 32;
        self_port = after.self_port;
        targets = after.targets;
        node_num = after.num - 1;
      } in
      let ended : parse_config io fuel i fn ≡ parsed cfg =
        rw (parse_config, opened, more, e, two) refl in
      (
        λ u. absurd (false≢true (ap is_parsed (sym u ∙ ended))),
        λ q. absurd (omega (arith, ap length q)),
        λ u. false≢true (ap is_parsed (sym u ∙ ended)),
      )
