-- ===== src/RoutingInfo/Longest.antt =====
-- `getRoutingTable` selects the longest matching prefix.
use kensv.Prelude.{
  ℕ, ◌≤◌, ◌<◌, ◌≡◌, refl, ◌⊎◌, inl, inr, ◌&&◌, some, List, [], ◌∷◌, All, ltb, ◌==◌, Bool-cases,
  ==_iff, arith,
}
use kensv.Prelude.Maybe.{◌>>=◌}
use kensv.RoutingInfo.{RoutingInfo, RouteEntry, select_route, get_routing_table}
use kensv.RoutingInfo.Prefix.{IsIpv4, leading, entry_matches_lem}

abbrev pub IsRoute : RouteEntry → Type 0
IsRoute e = IsIpv4 e.ip_mask × (e.prefix ≤ 32)

-- The address agrees with the mask in the bits of the prefix.
abbrev pub Matches : List ℕ → RouteEntry → Type 0
Matches ip e = leading e.prefix ip ≡ leading e.prefix e.ip_mask

-- Some element of the list meets `P`.
abbrev pub Any {ℓ} : {A : Type ℓ} → (A → Type 0) → List A → Type 0
Any P [] = ⊥
Any P (x ∷ xs) = P x ⊎ Any P xs

-- No matching entry has a longer prefix than `n`.
abbrev pub NoLonger : List ℕ → ℕ → List RouteEntry → Type 0
NoLonger ip n = All (λ e. Matches ip e → e.prefix ≤ n)

-- A matching entry of the list has this prefix, not 0, and this port.
abbrev pub Chosen : List ℕ → ℕ → ℕ → List RouteEntry → Type 0
Chosen ip n port = Any (λ e. Matches ip e × (0 < e.prefix) × (e.prefix ≡ n) × (e.port ≡ port))

-- The outcome of the loop: what it began with, or an entry of the list.
abbrev pub Selected : List ℕ → ℕ → ℕ → List RouteEntry → ℕ → ℕ → Type 0
Selected ip n port es n' port' =
    (n ≤ n') × NoLonger ip n' es × (((n' ≡ n) × (port' ≡ port)) ⊎ Chosen ip n' port' es)

select_route-Selected :
    (ip : List ℕ) (n port : ℕ) (es : List RouteEntry)
    → IsIpv4 ip
    → All IsRoute es
    → (n' : ℕ) × (port' : ℕ) × (select_route ip n port es ≡ some port')
      × Selected ip n port es n' port'
unfolding select_route
select_route-Selected ip n port [] h v = (n, port, refl, (omega arith, tt, inl (refl, refl)))
select_route-Selected ip n port (e ∷ es) h v =
    let hit = entry_matches_lem ip e h v.0.0 v.0.1 in
    elim (Bool-cases ((leading e.prefix ip == leading e.prefix e.ip_mask) && ltb n e.prefix)) [
      | inl better ↦
          let (n', port', run, (grows, none_longer, source)) =
            select_route-Selected ip e.prefix e.port es h v.1 in
          (
            n',
            port',
            rw (hit, ◌>>=◌, better) run,
            (
              ground arith,
              ((λ m. grows), none_longer),
              elim source [
                | inl (len, out) ↦
                    inr (
                      inl ((==_iff _ _).0 (ground arith), ground arith, ground arith, ground arith))
                | inr found ↦ inr (inr found)
              ],
            ),
          )
      | inr not_better ↦
          let (n', port', run, (grows, none_longer, source)) =
            select_route-Selected ip n port es h v.1 in
          (
            n',
            port',
            rw (hit, ◌>>=◌, not_better) run,
            (
              grows,
              ((λ m. ground arith), none_longer),
              elim source [ inl old ↦ inl old | inr found ↦ inr (inr found) ],
            ),
          )
    ]

-- For an address of four bytes and entries of four bytes and a prefix length up to 32, the port
-- that is returned is that of a matching entry of the longest prefix, or 0 if no entry of positive
-- prefix length matches; the arrays are never left.
pub get_routing_table_lem :
    (ip : List ℕ) (r : RoutingInfo)
    → IsIpv4 ip
    → All IsRoute r.route_vector
    → (n : ℕ) × (port : ℕ) × (get_routing_table ip r ≡ some port)
      × NoLonger ip n r.route_vector
      × (((n ≡ 0) × (port ≡ 0)) ⊎ Chosen ip n port r.route_vector)
unfolding get_routing_table
get_routing_table_lem ip r h v =
    let (n, port, run, (grows, none_longer, source)) =
      select_route-Selected ip 0 0 r.route_vector h v in
    (n, port, run, none_longer, source)

unmatched :
    (ip : List ℕ) (n port : ℕ) (es : List RouteEntry)
    → All (λ e. Matches ip e → e.prefix ≡ 0) es
    → Chosen ip n port es
    → ⊥
unmatched ip n port [] h c = c
unmatched ip n port (e ∷ es) h (inl (m, pos, _, _)) = omega (arith, h.0 m)
unmatched ip n port (e ∷ es) h (inr c) = unmatched ip n port es h.1 c

-- For an address of four bytes and entries of four bytes and a prefix length up to 32: where only
-- entries of prefix length 0 match the address, port 0 is returned, whatever ports these default
-- routes name.
pub get_routing_table-default :
    (ip : List ℕ) (r : RoutingInfo)
    → IsIpv4 ip
    → All IsRoute r.route_vector
    → All (λ e. Matches ip e → e.prefix ≡ 0) r.route_vector
    → get_routing_table ip r ≡ some 0
get_routing_table-default ip r h v only =
    let (n, port, run, none_longer, source) = get_routing_table_lem ip r h v in
    elim source [
      | inl (_, zero_port) ↦ rw (run, zero_port)
      | inr c ↦ absurd (unmatched ip n port r.route_vector only c)
    ]
