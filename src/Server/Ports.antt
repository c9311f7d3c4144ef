-- ===== src/Server/Ports.antt =====
-- agent/services/instance_port_guard.py: the sockets that hold the ports of an instance. Times are
-- milliseconds of the monotonic clock.
use pitlane_agent.Common.{
  ℕ, zero, suc, ◌≡◌, refl, Option, none, some, Bool, true, false, List, [], ◌∷◌, ◌++◌, ◌&&◌, ◌||◌,
  not, arith, ltb, ◌==◌, if◌then◌else◌, any, Option-cases, inl, inr, Bool-cases,
}
use pitlane_agent.Common.Int.{pos, negsuc}
use pitlane_agent.Common.Json.{Value, Fields, null, get}
use pitlane_agent.Journal.Contract.{Python, int_of}

pub data Protocol : Type 0 where
  tcp udp : Protocol

abbrev pub protocol_eq : Protocol → Protocol → Bool
protocol_eq tcp tcp = true
protocol_eq udp udp = true
protocol_eq _ _ = false

-- What psutil says of a socket: its protocol, if it is of one of the two types; its local port, if it
-- has one; whether its status is LISTEN; its process.
pub record Connection : Type 0 where
  pub protocol : Option Protocol
  pub local_port : Option ℕ
  pub listens : Bool
  pub pid : Option ℕ

pub record Conflict : Type 0 where
  pub protocol : Protocol
  pub port : ℕ
  pub pid : Option ℕ

abbrev pub Port : Type 0
Port = Protocol × ℕ

-- A configured port, if it is a positive integer.
unfoldable pub required_port : Python → Protocol → Value → List Port
required_port py p null = []
required_port py p v = elim (int_of py v) [
  | none ↦ []
  | some (negsuc n) ↦ []
  | some (pos zero) ↦ []
  | some (pos (suc n)) ↦ (p, suc n) ∷ []
]

-- `_required_ports`.
unfoldable pub required_ports : Python → Fields → List Port
unfolding required_port
required_ports py d =
    required_port py tcp (get d "tcp_port")
    ++ (required_port py tcp (get d "http_port") ++ required_port py udp (get d "udp_port"))

abbrev pub is_port : Protocol → ℕ → Port → Bool
is_port p n (q, m) = protocol_eq p q && n == m

-- The conflict that a socket is, if any.
unfoldable pub conflict_of : List Port → Connection → Option Conflict
unfolding any
conflict_of required c = elim c.protocol [
  | none ↦ none
  | some p ↦ elim c.local_port [
    | none ↦ none
    | some n ↦
        if not (any (is_port p n) required)
        then none
        else if protocol_eq p tcp && not c.listens
        then none
        else some (record { protocol = p; port = n; pid = c.pid })
  ]
]

abbrev pub pid_eq : Option ℕ → Option ℕ → Bool
pid_eq none none = true
pid_eq (some m) (some n) = m == n
pid_eq _ _ = false

unfoldable pub conflict_eq : Conflict → Conflict → Bool
conflict_eq a b = protocol_eq a.protocol b.protocol && a.port == b.port && pid_eq a.pid b.pid

abbrev pub pid_lt : Option ℕ → Option ℕ → Bool
pid_lt none none = false
pid_lt none (some n) = true
pid_lt (some m) none = false
pid_lt (some m) (some n) = ltb m n

-- The order of the keys `(protocol, port, pid or -1)`; "TCP" comes before "UDP".
unfoldable pub conflict_lt : Conflict → Conflict → Bool
conflict_lt a b =
    if protocol_eq a.protocol b.protocol
    then (if a.port == b.port then pid_lt a.pid b.pid else ltb a.port b.port)
    else protocol_eq a.protocol tcp

-- Adding to a set that is kept sorted.
unfoldable pub add_conflict : Conflict → List Conflict → List Conflict
add_conflict a [] = a ∷ []
add_conflict a (b ∷ bs) =
    let rest = add_conflict a bs in
    if conflict_eq a b then b ∷ bs else if conflict_lt a b then a ∷ b ∷ bs else b ∷ rest

abbrev pub add_option : Option Conflict → List Conflict → List Conflict
add_option none bs = bs
add_option (some a) bs = add_conflict a bs

unfoldable pub conflicts_of : List Port → List Connection → List Conflict
unfolding conflict_of add_conflict
conflicts_of required [] = []
conflicts_of required (c ∷ cs) = add_option (conflict_of required c) (conflicts_of required cs)

-- What an inspection finds; psutil may deny it.
pub data Inspection : Type 0 where
  found : List Conflict → Inspection
  denied : Inspection

-- `inspect_instance_port_conflicts`; `connections` is `none` where psutil raises.
unfoldable pub inspect_instance_port_conflicts : List Port → Option (List Connection) → Inspection
unfolding conflicts_of
inspect_instance_port_conflicts [] connections = found []
inspect_instance_port_conflicts (p ∷ ps) none = denied
inspect_instance_port_conflicts (p ∷ ps) (some cs) = found (conflicts_of (p ∷ ps) cs)

pid_eq-eq : (a b : Option ℕ) → pid_eq a b ≡ true → a ≡ b
pid_eq-eq none none h = refl
pid_eq-eq (some m) (some n) h = ground (arith, h)
pid_eq-eq none (some n) h = absurd (ground (arith, h))
pid_eq-eq (some m) none h = absurd (ground (arith, h))

protocol_eq-eq : (a b : Protocol) → protocol_eq a b ≡ true → a ≡ b
protocol_eq-eq tcp tcp h = refl
protocol_eq-eq udp udp h = refl
protocol_eq-eq tcp udp h = absurd (ground (arith, h))
protocol_eq-eq udp tcp h = absurd (ground (arith, h))

conflict_eq-eq : (a b : Conflict) → conflict_eq a b ≡ true → a ≡ b
unfolding conflict_eq
conflict_eq-eq a b h =
    let p : a.protocol ≡ b.protocol = protocol_eq-eq a.protocol b.protocol (ground (arith, h)) in
    let n : a.port ≡ b.port = ground (arith, h) in
    let q : a.pid ≡ b.pid = pid_eq-eq a.pid b.pid (ground (arith, h)) in
    λ i. record { protocol = p i; port = n i; pid = q i }

has-add_conflict :
    (x a : Conflict) (bs : List Conflict)
    → any (conflict_eq x) (add_conflict a bs) ≡ (conflict_eq x a || any (conflict_eq x) bs)
unfolding add_conflict any
has-add_conflict x a [] = ground arith
has-add_conflict x a (b ∷ bs) = elim (Bool-cases (conflict_eq a b)) [
  | inl t ↦ let e = conflict_eq-eq a b t in rw (t, add_conflict, e) (ground arith)
  | inr f ↦ elim (Bool-cases (conflict_lt a b)) [
    | inl l ↦ rw (f, l, add_conflict) (ground arith)
    | inr g ↦ rw (f, g, add_conflict) (ground (arith, has-add_conflict x a bs))
  ]
]

-- The socket is of a process and holds a port.
abbrev pub has_protocol : Protocol → Option Protocol → Bool
has_protocol p none = false
has_protocol p (some q) = protocol_eq p q

abbrev pub has_port : ℕ → Option ℕ → Bool
has_port n none = false
has_port n (some m) = n == m

-- A socket of the conflict's process holds its port, which is a required one; a TCP socket listens.
abbrev pub holds : List Port → Conflict → Connection → Bool
holds required x c =
    any (is_port x.protocol x.port) required
    && (has_protocol x.protocol c.protocol && has_port x.port c.local_port)
    && (protocol_eq x.protocol udp || c.listens)
    && pid_eq x.pid c.pid

-- What a socket contributes.
abbrev is_conflict : List Port → Conflict → Connection → Bool
is_conflict required x c = elim (conflict_of required c) [ none ↦ false | some a ↦ conflict_eq x a ]

holds_protocol :
    (required : List Port) (x : Conflict) (p q : Protocol) (o n : ℕ) (l : Bool) (i : Option ℕ)
    → x.protocol ≡ p
    → is_conflict required x
        (record { protocol = some q; local_port = some n; listens = l; pid = i })
      ≡ holds required x (record { protocol = some q; local_port = some n; listens = l; pid = i })
unfolding conflict_of conflict_eq
holds_protocol required x tcp tcp o n l i e = elim (Bool-cases (x.port == n)) [
  | inl t ↦ let same : x.port ≡ n = ground (arith, t) in rw (e, same) (ground (arith, e, same, t))
  | inr f ↦ ground (arith, e, f)
]
holds_protocol required x udp udp o n l i e = elim (Bool-cases (x.port == n)) [
  | inl t ↦ let same : x.port ≡ n = ground (arith, t) in rw (e, same) (ground (arith, e, same, t))
  | inr f ↦ ground (arith, e, f)
]
holds_protocol required x tcp udp o n l i e = ground (arith, e)
holds_protocol required x udp tcp o n l i e = ground (arith, e)

holds_iff :
    (required : List Port) (x : Conflict) (c : Connection)
    → is_conflict required x c ≡ holds required x c
unfolding conflict_of
holds_iff required x c = elim (Option-cases c.protocol) [
  | inl e ↦ ground (arith, e)
  | inr (q, e) ↦ elim (Option-cases c.local_port) [
    | inl f ↦ ground (arith, e, f)
    | inr (n, f) ↦
        ground (arith, e, f, holds_protocol required x x.protocol q 0 n c.listens c.pid refl)
  ]
]

-- The conflicts are those of the sockets: a protocol, a port and a process are reported exactly if some
-- socket of this process holds this port, which is a required one, and listens where it is of TCP.
pub conflicts_of-any :
    (required : List Port) (x : Conflict) (cs : List Connection)
    → any (conflict_eq x) (conflicts_of required cs) ≡ any (holds required x) cs
unfolding conflicts_of any
conflicts_of-any required x [] = refl
conflicts_of-any required x (c ∷ cs) = elim (Option-cases (conflict_of required c)) [
  | inl n ↦ ground (arith, n, conflicts_of-any required x cs, holds_iff required x c)
  | inr (a, p) ↦ ground (
    arith,
    p,
    has-add_conflict x a (conflicts_of required cs),
    conflicts_of-any required x cs,
    holds_iff required x c,
  )
]
