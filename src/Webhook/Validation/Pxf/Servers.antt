-- ===== src/Webhook/Validation/Pxf/Servers.antt =====
-- internal/webhook/validating.go: the PXF servers that pass, and the names that they leave.
use mathlib.Core.Path.{subst}
use cloudberry_k8s.Base.{
  ℕ, suc, Bool, true, false, Option, none, some, List, [], ◌∷◌, String, str_eq, eq_iff,
  if◌then◌else◌, map, All, Any, ◌≡◌, ◌≢◌, ◌⊎◌, inl, inr, refl, sym, ap, arith, Bool-cases,
}
use cloudberry_k8s.Api.DataLoading.{PxfServerSpec, PxfCustomConnector}
use cloudberry_k8s.Webhook.Validation.Errors.{Rule}
use cloudberry_k8s.Webhook.Validation.Cluster.{is_one_of}
use cloudberry_k8s.Webhook.Validation.Pxf.{
  rejected, passed, is_connected, add_server, pass_if_none, ServerNames, validate_pxf_server,
  Checked, validate_pxf_servers, pxf_custom_connector_names,
}

-- A server of that name.
abbrev pub IsNamed : String → PxfServerSpec → Type 0
IsNamed name srv = srv.name ≡ name

abbrev pub HasConnector : List PxfCustomConnector → PxfServerSpec → Type 0
HasConnector connectors srv = Any (λ c. c.name ≡ srv.name) connectors

-- A custom server of that name, with a connector of the same name.
abbrev pub IsConnected : List PxfCustomConnector → String → PxfServerSpec → Type 0
IsConnected connectors name srv =
    (srv.name ≡ name) × (srv.type ≡ "custom") × HasConnector connectors srv

-- Another name than every one of a list.
abbrev pub IsNew : String → List String → Type 0
IsNew name names = All (λ other. other ≢ name) names

abbrev pub IsDistinct : List String → Type 0
IsDistinct [] = Unit
IsDistinct (name ∷ names) = IsNew name names × IsDistinct names

abbrev pub IsSoundServer : List PxfCustomConnector → PxfServerSpec → Type 0
IsSoundServer connectors srv =
    (srv.name ≢ "") × ((srv.type ≢ "custom") ⊎ HasConnector connectors srv)

pub is_one_of-Any : (n : String) (ns : List String) → is_one_of n ns ≡ true → Any (λ m. m ≡ n) ns
is_one_of-Any n [] h = ground arith
is_one_of-Any n (m ∷ ns) h = elim (Bool-cases (str_eq n m)) [
  | inl e ↦ inl (sym ((eq_iff n m).0 e))
  | inr e ↦ inr (is_one_of-Any n ns (ground (arith, e, h)))
]

pub not-is_one_of : (n : String) (ns : List String) → is_one_of n ns ≡ false → IsNew n ns
not-is_one_of n [] h = tt
not-is_one_of n (m ∷ ns) h = (ground (arith, h, eq_iff n m), not-is_one_of n ns (ground (arith, h)))

connector_names-Any :
    (n : String) (cs : List PxfCustomConnector)
    → is_one_of n (pxf_custom_connector_names cs) ≡ true
    → Any (λ c. c.name ≡ n) cs
unfolding pxf_custom_connector_names
connector_names-Any n [] h = ground arith
connector_names-Any n (c ∷ cs) h = elim (Bool-cases (str_eq n c.name)) [
  | inl e ↦ inl (sym ((eq_iff n c.name).0 e))
  | inr e ↦ inr (connector_names-Any n cs (ground (arith, e, h)))
]

-- What one turn of the loop has checked.
validate_pxf_server_lem :
    (i : ℕ) (srv : PxfServerSpec) (cs : List PxfCustomConnector) (known : ServerNames)
    → validate_pxf_server i srv (pxf_custom_connector_names cs) known ≡ none
    → IsSoundServer cs srv × (is_one_of srv.name known.names ≡ false)
unfolding validate_pxf_server
validate_pxf_server_lem i srv cs known h =
    let named : str_eq srv.name "" ≡ false = ground (arith, h) in
    let fresh : is_one_of srv.name known.names ≡ false = ground (arith, h) in
    let connected : is_connected srv (pxf_custom_connector_names cs) ≡ true = ground (arith, h) in
    let kind : (srv.type ≢ "custom") ⊎ HasConnector cs srv =
      elim (Bool-cases (str_eq srv.type "custom")) [
        | inl e ↦ inr (connector_names-Any srv.name cs (ground (arith, e, connected)))
        | inr e ↦ inl (ground (arith, e, eq_iff srv.type "custom"))
      ] in
    ((ground (arith, named, eq_iff srv.name ""), kind), fresh)

pass_if_none-passed :
    (e : Option Rule) (next : Checked ServerNames) (out : ServerNames)
    → pass_if_none e next ≡ passed out
    → (e ≡ none) × (next ≡ passed out)
pass_if_none-passed none next out h = (refl, h)
pass_if_none-passed (some err) next out h = absurd (ground (arith, h))

abbrev pub names_or : ServerNames → Checked ServerNames → ServerNames
names_or default (rejected err) = default
names_or default (passed out) = out

abbrev pub server_names : List PxfServerSpec → List String
server_names servers = map (λ srv. srv.name) servers

-- A name that a server's turn adds to those that a connector backs is its own.
backed_own :
    (cs : List PxfCustomConnector) (srv : PxfServerSpec) (known : ServerNames) (n : String)
    → IsSoundServer cs srv
    → is_one_of n (add_server srv known).connector_backed ≡ true
    → IsConnected cs n srv ⊎ (is_one_of n known.connector_backed ≡ true)
backed_own cs srv known n sound is =
    let backed = known.connector_backed in
    let opened = λ (test : Bool) (e : str_eq srv.type "custom" ≡ test).
      subst (λ t. is_one_of n (if t then srv.name ∷ backed else backed) ≡ true) e is in
    elim (Bool-cases (str_eq srv.type "custom")) [
      | inl e ↦ elim (sound.1) [
        | inl other ↦ absurd (other ((eq_iff srv.type "custom").0 e))
        | inr connector ↦ elim (Bool-cases (str_eq n srv.name)) [
          | inl f ↦ inl (sym ((eq_iff n srv.name).0 f), (eq_iff srv.type "custom").0 e, connector)
          | inr f ↦ (let rest = opened true e in inr (ground (arith, f, rest)))
        ]
      ]
      | inr e ↦ inr (opened false e)
    ]

module _ (cs : List PxfCustomConnector) where
  abbrev connectors : List String
  connectors = pxf_custom_connector_names cs

  -- The two things that a loop that passes has checked, of its first server and of the others.
  step_passed :
      (i : ℕ) (srv : PxfServerSpec) (servers : List PxfServerSpec) (known out : ServerNames)
      → validate_pxf_servers i (srv ∷ servers) connectors known ≡ passed out
      → (validate_pxf_server i srv connectors known ≡ none)
        × (validate_pxf_servers (suc i) servers connectors (add_server srv known) ≡ passed out)
  unfolding validate_pxf_servers
  step_passed i srv servers known out h =
      pass_if_none-passed (validate_pxf_server i srv connectors known) _ out h

  pub validate_pxf_servers-All :
      (i : ℕ) (servers : List PxfServerSpec) (known out : ServerNames)
      → validate_pxf_servers i servers connectors known ≡ passed out
      → All (IsSoundServer cs) servers
  validate_pxf_servers-All i [] known out h = tt
  validate_pxf_servers-All i (srv ∷ servers) known out h =
      let step = step_passed i srv servers known out h in
      (
        (validate_pxf_server_lem i srv cs known (step.0)).0,
        validate_pxf_servers-All (suc i) servers (add_server srv known) out (step.1),
      )

  -- Every server's name is another than those that were known before.
  servers-IsNew :
      (i : ℕ) (servers : List PxfServerSpec) (known out : ServerNames) (n : String)
      → validate_pxf_servers i servers connectors known ≡ passed out
      → is_one_of n known.names ≡ true
      → IsNew n (server_names servers)
  servers-IsNew i [] known out n h old = tt
  servers-IsNew i (srv ∷ servers) known out n h old =
      let step = step_passed i srv servers known out h in
      let fresh = (validate_pxf_server_lem i srv cs known (step.0)).1 in
      let kept : is_one_of n (add_server srv known).names ≡ true = ground (arith, old) in
      (
        λ e.
            absurd (ground (arith, fresh, subst (λ m. is_one_of m known.names ≡ true) (sym e) old)),
        servers-IsNew (suc i) servers (add_server srv known) out n (step.1) kept,
      )

  pub validate_pxf_servers-IsDistinct :
      (i : ℕ) (servers : List PxfServerSpec) (known out : ServerNames)
      → validate_pxf_servers i servers connectors known ≡ passed out
      → IsDistinct (server_names servers)
  validate_pxf_servers-IsDistinct i [] known out h = tt
  validate_pxf_servers-IsDistinct i (srv ∷ servers) known out h =
      let step = step_passed i srv servers known out h in
      let more = add_server srv known in
      let own : is_one_of srv.name more.names ≡ true = ground (arith, eq_iff srv.name srv.name) in
      (
        servers-IsNew (suc i) servers more out srv.name (step.1) own,
        validate_pxf_servers-IsDistinct (suc i) servers more out (step.1),
      )

  -- A name that is known after the loop is a server's, or was known before.
  pub validate_pxf_servers-names :
      (i : ℕ) (servers : List PxfServerSpec) (known out : ServerNames) (n : String)
      → validate_pxf_servers i servers connectors known ≡ passed out
      → is_one_of n out.names ≡ true
      → Any (IsNamed n) servers ⊎ (is_one_of n known.names ≡ true)
  unfolding validate_pxf_servers
  validate_pxf_servers-names i [] known out n h is =
      inr (subst (λ k. is_one_of n k.names ≡ true) (sym (ap (names_or known) h)) is)
  validate_pxf_servers-names i (srv ∷ servers) known out n h is =
      let step = step_passed i srv servers known out h in
      elim (validate_pxf_servers-names (suc i) servers (add_server srv known) out n (step.1) is) [
        | inl found ↦ inl (inr found)
        | inr old ↦ elim (Bool-cases (str_eq n srv.name)) [
          | inl e ↦ inl (inl (sym ((eq_iff n srv.name).0 e)))
          | inr e ↦ inr (ground (arith, e, old))
        ]
      ]

  -- The same for the names that a connector backs.
  pub validate_pxf_servers-backed :
      (i : ℕ) (servers : List PxfServerSpec) (known out : ServerNames) (n : String)
      → validate_pxf_servers i servers connectors known ≡ passed out
      → is_one_of n out.connector_backed ≡ true
      → Any (IsConnected cs n) servers ⊎ (is_one_of n known.connector_backed ≡ true)
  unfolding validate_pxf_servers
  validate_pxf_servers-backed i [] known out n h is =
      inr (subst (λ k. is_one_of n k.connector_backed ≡ true) (sym (ap (names_or known) h)) is)
  validate_pxf_servers-backed i (srv ∷ servers) known out n h is =
      let step = step_passed i srv servers known out h in
      let sound = (validate_pxf_server_lem i srv cs known (step.0)).0 in
      elim (validate_pxf_servers-backed (suc i) servers (add_server srv known) out n (step.1) is) [
        | inl found ↦ inl (inr found)
        | inr old ↦
            (let own = backed_own cs srv known n sound old in
              elim own [ inl here ↦ inl (inl here) | inr before ↦ inr before ])
      ]
