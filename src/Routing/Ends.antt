-- ===== src/Routing/Ends.antt =====
-- The networks that setupGraph builds have the costs of the graph.
use kensv.Prelude.{
  ℕ, ◌+◌, ◌<◌, ◌≤◌, ◌≡◌, refl, sym, ap, subst, ◌∙◌, Option, some, List, [], ◌∷◌, map, All,
  get_elem?, Bool, true, false,
}
use kensv.Prelude.Maybe.{Holds, Holds-bind}
use kensv.Prelude.Table.{lookup}
use kensv.Networking.{Network, add_node}
use kensv.Networking
use kensv.RoutingInfo.{RoutingInfo}
use kensv.Switch
use kensv.Host.Install.{Installed, Parts}
use kensv.Testbed.{
  Testbed, blank, add_switch, add_wire, at_tables, install, add_mac_entry, switch_of, all_of,
}
use kensv.Routing.Graphs.{Edge}
use kensv.Routing.Costs.{max_cost, link_cost, speed_of}
use kensv.Routing.Kept.{Keeps, add_node-Keeps, add_wire-Keeps}
use kensv.Routing.Addresses.{mac_addr, network_addr}
use kensv.Routing.Setup.{
  Joint, table_calls, module_calls, install_routers, connect_routers, connect_all, install_modules,
  setup_graph,
}

-- Calls for tables and modules leave the network as it is.
Same : (Testbed → Option Testbed) → Type 0
Same f = (t : Testbed) → Holds (λ t'. t'.network ≡ t.network) (f t)

all_of-Same : (fs : List (Testbed → Option Testbed)) → All Same fs → Same (all_of fs)
unfolding all_of Same
all_of-Same [] same t = refl
all_of-Same (f ∷ fs) same t =
    Holds-bind (λ t'. t'.network ≡ t.network) (f t) (all_of fs)
      (λ t₁ e.
        let first = subst (Holds (λ t'. t'.network ≡ t.network)) e (same.0 t) in
        subst (λ n. Holds (λ t'. t'.network ≡ n) (all_of fs t₁)) first (all_of-Same fs same.1 t₁))

at_tables-Same : (host : ℕ) (f : RoutingInfo → RoutingInfo) → Same (at_tables host f)
unfolding at_tables Same
at_tables-Same host f t =
    Holds-bind (λ t'. t'.network ≡ t.network) (lookup host t.routing) _ (λ r e. refl)

install-Same : (host : ℕ) (f : Installed → Option Installed) → Same (install host f)
unfolding install Same
install-Same host f t =
    Holds-bind (λ t'. t'.network ≡ t.network) (lookup host t.installed) _
      (λ modules e. Holds-bind (λ t'. t'.network ≡ t.network) (f modules) _ (λ modules' e'. refl))

add_mac_entry-Same : (id port : ℕ) (mac : List ℕ) → Same (add_mac_entry id port mac)
unfolding add_mac_entry Same
add_mac_entry-Same id port mac t =
    Holds-bind (λ t'. t'.network ≡ t.network) (switch_of id t) _
      (λ s e.
        Holds-bind (λ t'. t'.network ≡ t.network) (Switch.add_mac_entry port mac s) _
          (λ s' e'.
            Holds-bind (λ t'. t'.network ≡ t.network) (lookup id t.switches) _ (λ old e''. refl)))

add_switch-Keeps :
    (unreliable : Bool) (t : Testbed)
    → Holds (λ r. Keeps t.network r.0.network) (add_switch unreliable t)
unfolding add_switch
add_switch-Keeps unreliable t =
    Holds-bind (λ r. Keeps t.network r.0.network) (add_node t.network) _
      (λ r e. subst (Holds (λ r. Keeps t.network r.0)) e (add_node-Keeps t.network))

-- The new wire at both ends.
Joins : (l r cost : ℕ) → Network → Testbed × ℕ × ℕ → Type 0
Joins l r cost n x =
    Keeps n x.0.network
    × (link_cost l x.1 x.0.network ≡ some cost)
    × (link_cost r x.2 x.0.network ≡ some cost)

add_wire-Joins :
    (l r delay bps cost : ℕ) (t : Testbed)
    → 0 < cost
    → cost ≤ max_cost
    → speed_of cost ≡ some bps
    → Holds (Joins l r cost t.network) (add_wire l r delay bps t)
unfolding add_wire Joins
add_wire-Joins l r delay bps cost t some_cost allowed speed =
    Holds-bind (Joins l r cost t.network) (Networking.add_wire l r delay bps true 0 t.network) _
      (λ x e.
        subst
          (Holds (λ x.
            Keeps t.network x.0
            × (link_cost l x.2 x.0 ≡ some cost)
            × (link_cost r x.3 x.0 ≡ some cost)))
          e (add_wire-Keeps l r delay bps cost 0 true t.network some_cost allowed speed))

-- The routers of an edge read its cost.
pub record IsRead (routers : List ℕ) (n : Network) (x : Joint) : Type 0 where
  pub at_i : get_elem? routers x.edge.0 ≡ some x.i
  pub at_j : get_elem? routers x.edge.1 ≡ some x.j
  pub cost_i : link_cost x.i x.i_port n ≡ some x.edge.2
  pub cost_j : link_cost x.j x.j_port n ≡ some x.edge.2

IsRead-Keeps :
    (routers : List ℕ) (n n' : Network) (x : Joint)
    → Keeps n n'
    → IsRead routers n x
    → IsRead routers n' x
IsRead-Keeps routers n n' x keeps r = record {
  at_i = r.at_i;
  at_j = r.at_j;
  cost_i = keeps x.i x.i_port x.edge.2 r.cost_i;
  cost_j = keeps x.j x.j_port x.edge.2 r.cost_j;
}

Connects : (routers : List ℕ) → Edge → Network → Testbed × Joint → Type 0
Connects routers edge n x = Keeps n x.0.network × (x.1.edge ≡ edge) × IsRead routers x.0.network x.1

built :
    (routers : List ℕ) (edge : Edge) (t t₁ t₂ t₃ t₄ : Testbed) (i j sw i_port j_port i_sw j_sw : ℕ)
    → get_elem? routers edge.0 ≡ some i
    → get_elem? routers edge.1 ≡ some j
    → Keeps t.network t₁.network
    → Joins i sw edge.2 t₁.network (t₂, i_port, i_sw)
    → Joins j sw edge.2 t₂.network (t₃, j_port, j_sw)
    → t₄.network ≡ t₃.network
    → Connects routers edge t.network
        (t₄, record { edge = edge; i = i; j = j; sw = sw; i_port = i_port; j_port = j_port })
unfolding Joins Connects
built routers edge t t₁ t₂ t₃ t₄ i j sw i_port j_port i_sw j_sw at_i at_j keeps₁ (keeps₂, cost_i, _)
      (keeps₃, cost_j, _) same =
    let joint : Joint = record {
      edge = edge;
      i = i;
      j = j;
      sw = sw;
      i_port = i_port;
      j_port = j_port;
    } in
    let read : IsRead routers t₃.network joint = record {
      at_i = at_i;
      at_j = at_j;
      cost_i = keeps₃ i i_port edge.2 cost_i;
      cost_j = cost_j;
    } in
    (
      λ host port c e.
          subst (λ n. link_cost host port n ≡ some c) (sym same)
            (keeps₃ host port c (keeps₂ host port c (keeps₁ host port c e))),
      refl,
      subst (λ n. IsRead routers n joint) (sym same) read,
    )

table_calls-Same :
    (i j sw i_port j_port i_sw j_sw : ℕ) (network i_mac j_mac : List ℕ)
    → Same (all_of (table_calls i j sw i_port j_port i_sw j_sw network i_mac j_mac))
unfolding Same
table_calls-Same i j sw i_port j_port i_sw j_sw network i_mac j_mac =
    all_of-Same (table_calls i j sw i_port j_port i_sw j_sw network i_mac j_mac) (
      at_tables-Same i _,
      (
        at_tables-Same i _,
        (
          at_tables-Same i _,
          (
            at_tables-Same i _,
            (
              at_tables-Same j _,
              (
                at_tables-Same j _,
                (
                  at_tables-Same j _,
                  (
                    at_tables-Same j _,
                    (add_mac_entry-Same sw i_sw i_mac, (add_mac_entry-Same sw j_sw j_mac, tt)),
                  ),
                ),
              ),
            ),
          ),
        ),
      ),
    )

connect_routers-Connects :
    (routers : List ℕ) (network_id mac_id : ℕ) (edge : Edge) (t : Testbed)
    → 0 < edge.2
    → edge.2 ≤ max_cost
    → Holds (Connects routers edge t.network) (connect_routers routers network_id mac_id edge t)
unfolding connect_routers Connects Same Joins
connect_routers-Connects routers network_id mac_id edge t some_cost allowed =
    let P = Connects routers edge t.network in
    Holds-bind P (network_addr network_id) _ (λ network e₀.
      Holds-bind P (add_switch false t) _ (λ (t₁, sw) e₁.
        Holds-bind P (get_elem? routers edge.0) _ (λ i at_i.
          Holds-bind P (get_elem? routers edge.1) _ (λ j at_j.
            Holds-bind P (speed_of edge.2) _ (λ bps speed.
              Holds-bind P (add_wire i sw 1000000 bps t₁) _ (λ (t₂, i_port, i_sw) e₂.
                Holds-bind P (add_wire j sw 1000000 bps t₂) _ (λ (t₃, j_port, j_sw) e₃.
                  Holds-bind P (mac_addr mac_id) _ (λ i_mac e₄.
                    Holds-bind P (mac_addr (mac_id + 1)) _ (λ j_mac e₅.
                      Holds-bind P
                        (all_of (table_calls i j sw i_port j_port i_sw j_sw network i_mac j_mac) t₃)
                        _
                        (λ t₄ e₆.
                          let keeps₁ =
                            subst (Holds (λ r. Keeps t.network r.0.network)) e₁
                              (add_switch-Keeps false t) in
                          let wire_i =
                            subst (Holds (Joins i sw edge.2 t₁.network)) e₂
                              (add_wire-Joins i sw 1000000 bps edge.2 t₁ some_cost allowed speed) in
                          let wire_j =
                            subst (Holds (Joins j sw edge.2 t₂.network)) e₃
                              (add_wire-Joins j sw 1000000 bps edge.2 t₂ some_cost allowed speed) in
                          let same = subst (Holds (λ t'. t'.network ≡ t₃.network)) e₆ (
                            table_calls-Same i j sw i_port j_port i_sw j_sw network i_mac j_mac
                              t₃) in
                          built routers edge t t₁ t₂ t₃ t₄ i j sw i_port j_port i_sw j_sw at_i at_j
                            keeps₁ wire_i wire_j same))))))))))

-- All edges of the graph, in order.
Connected : (routers : List ℕ) → List Edge → Network → Testbed × List Joint → Type 0
Connected routers graph n x =
    Keeps n x.0.network
    × (map (λ joint. joint.edge) x.1 ≡ graph)
    × All (IsRead routers x.0.network) x.1

connect_all-Connected :
    (routers : List ℕ) (network_id mac_id : ℕ) (graph : List Edge) (t : Testbed)
    → All (λ e. (0 < e.2) × (e.2 ≤ max_cost)) graph
    → Holds (Connected routers graph t.network) (connect_all routers network_id mac_id graph t)
unfolding connect_all Connected Connects
connect_all-Connected routers network_id mac_id [] t allowed = (λ host port c e. e, refl, tt)
connect_all-Connected routers network_id mac_id (edge ∷ graph) t allowed =
    Holds-bind (Connected routers (edge ∷ graph) t.network)
      (connect_routers routers network_id mac_id edge t) _
      (λ (t₁, joint) e₁.
        Holds-bind (Connected routers (edge ∷ graph) t.network)
          (connect_all routers (network_id + 1) (mac_id + 2) graph t₁) _
          (λ (t₂, joints) e₂.
            let (keeps, is_edge, read) =
              subst (Holds (Connects routers edge t.network)) e₁ (
                connect_routers-Connects routers network_id mac_id edge t allowed.0.0
                  allowed.0.1) in
            let (keeps', are_edges, all_read) =
              subst (Holds (Connected routers graph t₁.network)) e₂
                (connect_all-Connected routers (network_id + 1) (mac_id + 2) graph t₁ allowed.1) in
            (
              λ host port c e. keeps' host port c (keeps host port c e),
              ap (λ x. x ∷ map (λ joint. joint.edge) joints) is_edge
                  ∙ ap (λ xs. edge ∷ xs) are_edges,
              (IsRead-Keeps routers t₁.network t₂.network joint keeps' read, all_read),
            )))

install_modules-Same :
    (assignment : Parts) (routers : List ℕ) → Same (install_modules assignment routers)
unfolding install_modules Same
install_modules-Same assignment [] t = refl
install_modules-Same assignment (router ∷ routers) t =
    Holds-bind (λ t'. t'.network ≡ t.network) (all_of (module_calls assignment router) t) _
      (λ t₁ e.
        let first = subst (Holds (λ t'. t'.network ≡ t.network)) e (
          all_of-Same (module_calls assignment router)
            (install-Same router _, (install-Same router _, (install-Same router _, tt))) t) in
        subst (λ n. Holds (λ t'. t'.network ≡ n) (install_modules assignment routers t₁)) first
          (install_modules-Same assignment routers t₁))

-- What setupGraph leaves: every edge of the graph, in order, between its two routers, at whose ports its cost is read.
pub record IsSetUp (graph : List Edge) (x : Testbed × List ℕ × List Joint) : Type 0 where
  pub edges : map (λ joint. joint.edge) x.2 ≡ graph
  pub read : All (IsRead x.1 x.0.network) x.2

pub setup_graph-IsSetUp :
    (assignment : Parts) (n : ℕ) (graph : List Edge)
    → All (λ e. (0 < e.2) × (e.2 ≤ max_cost)) graph
    → Holds (IsSetUp graph) (setup_graph assignment n graph)
unfolding setup_graph Connected Same
setup_graph-IsSetUp assignment n graph allowed =
    Holds-bind (IsSetUp graph) (install_routers n blank) _ (λ (t₁, routers) e₁.
      Holds-bind (IsSetUp graph) (connect_all routers 1 1 graph t₁) _ (λ (t₂, joints) e₂.
        Holds-bind (IsSetUp graph) (install_modules assignment routers t₂) _ (λ t₃ e₃.
          let (keeps, are_edges, all_read) =
            subst (Holds (Connected routers graph t₁.network)) e₂
              (connect_all-Connected routers 1 1 graph t₁ allowed) in
          let same =
            subst (Holds (λ t'. t'.network ≡ t₂.network)) e₃
              (install_modules-Same assignment routers t₂) in
          record {
            edges = are_edges;
            read = subst (λ n. All (IsRead routers n) joints) (sym same) all_read;
          })))
