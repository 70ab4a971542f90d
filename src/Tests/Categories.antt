-- ===== src/Tests/Categories.antt =====
-- Two categories, in both orders.
use mathlib.Core.Bool.{false≢true}
use mathlib.Core.Option.{none-ne-some, some-injective}
use peer_net.Base.{
  ◌≡◌, refl, sym, ap, ◌∙◌, inl, inr, String, List, [], ◌∷◌, ◌==◌, Bool-cases, contains, string_eq,
  test_eq,
}
use peer_net.Base.Dict.{lookup}
use peer_net.Address.{IpAddr, ip_of, ip_eq, to_canonical, v4_addr}
use peer_net.Config.Category.{PeerNetCategoryInfo, PeerNetCategories, category_of}
use peer_net.Config.Category.Order.{Lists, SameEntries, IsApart, category_of-SameEntries}
use peer_net.Tests.Tables.{one_each}

abbrev here : IpAddr
here = ip_of (v4_addr 0x7f000001 9)

abbrev there : IpAddr
there = ip_of (v4_addr 0x7f000002 9)

abbrev bootstrap : String × (List IpAddr × PeerNetCategoryInfo)
bootstrap = ("bootstrap", (here ∷ [], one_each))

abbrev other_nodes : String × (List IpAddr × PeerNetCategoryInfo)
other_nodes = ("nodes", (there ∷ [], record one_each { max_in_connections = 9 }))

abbrev categories : PeerNetCategories
categories = bootstrap ∷ other_nodes ∷ []

abbrev turned : PeerNetCategories
turned = other_nodes ∷ bootstrap ∷ []

categories-SameEntries : SameEntries here categories turned
unfolding lookup string_eq
categories-SameEntries name = elim (Bool-cases (name == "bootstrap")) [
  | inl first ↦ rw (test_eq name "bootstrap" first) refl
  | inr other ↦ elim (Bool-cases (name == "nodes")) [
    | inl second ↦ rw (other, second) refl
    | inr none_of_both ↦ rw (other, none_of_both) refl
  ]
]

-- The address is listed under one name.
listed :
    (name : String) (info : PeerNetCategoryInfo)
    → Lists here categories name info
    → name ≡ "bootstrap"
unfolding lookup ip_of to_canonical ip_eq
listed name info l = elim (Bool-cases (name == "bootstrap")) [
  | inl first ↦ test_eq name "bootstrap" first
  | inr other ↦ elim (Bool-cases (name == "nodes")) [
    | inl second ↦
        let entry =
          some-injective (other_nodes.1.0, other_nodes.1.1) (l.ips, info)
            (rw (other, second) at l.there) in
        absurd (false≢true (ap (λ t. contains t.0 here) entry ∙ l.has))
    | inr none_of_both ↦ absurd (none-ne-some _ (rw (other, none_of_both) at l.there))
  ]
]

categories-IsApart : IsApart here categories
categories-IsApart m n i j one two = listed m i one ∙ sym (listed n j two)

category_of-SameEntries_example :
    category_of categories one_each (v4_addr 0x7f000001 9)
    ≡ category_of turned one_each (v4_addr 0x7f000001 9)
unfolding to_canonical ip_of lookup string_eq
category_of-SameEntries_example =
    category_of-SameEntries categories turned one_each (v4_addr 0x7f000001 9) (refl, (refl, tt))
      (refl, (refl, tt)) categories-SameEntries categories-IsApart
