-- ===== src/Resolver/Scan/Found.antt =====
-- `resolver_lookup` of src/resolver.c: what a snapshot of /proc gives for a flow.
use if_flow.Base.{
  ℕ, zero, suc, ◌≡◌, refl, Bool, true, false, Option, none, some, List, [], ◌∷◌, Bytes, arith,
  get_elem?, str_eq, str_eq_iff, if◌then◌else◌, Bool-cases, inl, inr,
}
use if_flow.Flow.{FlowKey}
use if_flow.Resolver.Sockets.{ProcConn}
use if_flow.Resolver.Owners.{InodeOwner, collect_inode_owners, lookup_inode_owner}
use if_flow.Resolver.ProcFs.{ProcFs}
use if_flow.Resolver.Scan.{is_candidate, match_conns, scan_tables, owner_of}

abbrev pub HoldsInode : Bytes → InodeOwner → Type 0
HoldsInode inode o = o.inode ≡ inode

-- A process that holds an inode: `o` stands in the list.
pub record HeldBy (owners : List InodeOwner) (inode : Bytes) (pid : ℕ) : Type 0 where
  pub index : ℕ
  pub owner : InodeOwner
  pub at : get_elem? owners index ≡ some owner
  pub holds : owner.inode ≡ inode
  pub is_pid : owner.pid ≡ pid

abbrev pub IsOwner : List InodeOwner → Bytes → Option ℕ → Type 0
IsOwner owners inode none =
    (i : ℕ) (o : InodeOwner) → get_elem? owners i ≡ some o → o.inode ≡ inode → ⊥
IsOwner owners inode (some pid) = HeldBy owners inode pid

HeldBy-cons :
    (o : InodeOwner) (owners : List InodeOwner) (inode : Bytes) (r : Option ℕ)
    → str_eq o.inode inode ≡ false
    → IsOwner owners inode r
    → IsOwner (o ∷ owners) inode r
HeldBy-cons o owners inode none other h = unheld
  where
    unheld : (i : ℕ) (x : InodeOwner) → get_elem? (o ∷ owners) i ≡ some x → x.inode ≡ inode → ⊥
    unheld zero x at e = ground (arith, str_eq_iff o.inode inode, at, e, other)
    unheld (suc i) x at e = h i x at e
HeldBy-cons o owners inode (some pid) other h = record {
  index = suc h.index;
  owner = h.owner;
  at = h.at;
  holds = h.holds;
  is_pid = h.is_pid;
}

pub lookup_inode_owner_lem :
    (owners : List InodeOwner) (inode : Bytes)
    → IsOwner owners inode (lookup_inode_owner owners inode)
unfolding lookup_inode_owner
lookup_inode_owner_lem [] inode = λ i o at e. cc
lookup_inode_owner_lem (o ∷ owners) inode = elim (Bool-cases (str_eq o.inode inode)) [
  | inl same ↦ rw same (record {
    index = 0;
    owner = o;
    at = refl;
    holds = (str_eq_iff o.inode inode).0 same;
    is_pid = refl;
  })
  | inr other ↦ rw other (
      HeldBy-cons o owners inode (lookup_inode_owner owners inode) other
        (lookup_inode_owner_lem owners inode))
]

module _ (key : FlowKey) (owners : List InodeOwner) where
  -- A row of the flow whose socket a process holds.
  pub record IsHeld (conns : List ProcConn) (pid : ℕ) : Type 0 where
    pub index : ℕ
    pub conn : ProcConn
    pub at : get_elem? conns index ≡ some conn
    pub is_of_flow : is_candidate key conn ≡ true
    pub held : HeldBy owners conn.inode pid

  abbrev pub IsMatch : List ProcConn → Option ℕ → Type 0
  IsMatch conns none =
      (i : ℕ) (c : ProcConn)
      → get_elem? conns i ≡ some c
      → is_candidate key c ≡ true
      → (j : ℕ) (o : InodeOwner) → get_elem? owners j ≡ some o
      → o.inode ≡ c.inode
      → ⊥
  IsMatch conns (some pid) = IsHeld conns pid

  same_conn : {c x : ProcConn} → ◌≡◌ {A = Option ProcConn} (some c) (some x) → c ≡ x
  same_conn h = cc

  IsMatch-cons :
      (c : ProcConn) (conns : List ProcConn) (r : Option ℕ)
      → (is_candidate key c ≡ true → IsOwner owners c.inode none)
      → IsMatch conns r
      → IsMatch (c ∷ conns) r
  IsMatch-cons c conns none passed h = unmatched
    where
      unmatched :
          (i : ℕ) (x : ProcConn)
          → get_elem? (c ∷ conns) i ≡ some x
          → is_candidate key x ≡ true
          → (j : ℕ) (o : InodeOwner) → get_elem? owners j ≡ some o
          → o.inode ≡ x.inode
          → ⊥
      unmatched zero x at of_flow j o at' e =
          let same : c ≡ x = same_conn at in passed (rw same of_flow) j o at' (rw same e)
      unmatched (suc i) x at of_flow j o at' e = h i x at of_flow j o at' e
  IsMatch-cons c conns (some pid) passed h = record {
    index = suc h.index;
    conn = h.conn;
    at = h.at;
    is_of_flow = h.is_of_flow;
    held = h.held;
  }

  conns-cons :
      (c : ProcConn) (conns : List ProcConn) (flow : Bool) (r o : Option ℕ)
      → is_candidate key c ≡ flow
      → IsOwner owners c.inode o
      → IsMatch conns r
      → IsMatch (c ∷ conns) (if flow then elim o [ none ↦ r | some pid ↦ some pid ] else r)
  conns-cons c conns false r o f i m = IsMatch-cons c conns r (λ t. absurd (cc (f, t))) m
  conns-cons c conns true r none f i m = IsMatch-cons c conns r (λ t. i) m
  conns-cons c conns true r (some pid) f i m = record {
    index = 0;
    conn = c;
    at = refl;
    is_of_flow = f;
    held = i;
  }

  pub match_conns_lem : (conns : List ProcConn) → IsMatch conns (match_conns key owners conns)
  unfolding match_conns
  match_conns_lem [] = λ i c at f j o at' e. cc
  match_conns_lem (c ∷ conns) =
      conns-cons c conns (is_candidate key c) (match_conns key owners conns)
        (lookup_inode_owner owners c.inode) refl (lookup_inode_owner_lem owners c.inode)
        (match_conns_lem conns)

-- A scan gives a process just where one of the rows that were read is of the flow or its reverse
-- and one of the owners that were collected holds its inode, and then it gives such an owner.
pub owner_of_lem :
    (scan_hex : Option ℕ → Bytes → Option (ℕ × Bytes)) (inet_ntop : Bytes → Option Bytes)
    (fs : ProcFs) (key : FlowKey)
    → IsMatch key
        (collect_inode_owners fs 32768)
        (scan_tables scan_hex inet_ntop fs)
        (owner_of scan_hex inet_ntop fs key)
unfolding owner_of
owner_of_lem scan_hex inet_ntop fs key =
    match_conns_lem key (collect_inode_owners fs 32768) (scan_tables scan_hex inet_ntop fs)
