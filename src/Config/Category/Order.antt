-- ===== src/Config/Category/Order.antt =====
-- The category of an address and the order of the map of categories.
use mathlib.Core.Bool.{false≢true}
use mathlib.Core.Option.{none-ne-some, some-ne-none, some-injective}
use mathlib.Core.Path.{subst, ap₂}
use peer_net.Base.{
  ◌≡◌, refl, sym, ap, ◌∙◌, inl, inr, String, Option, none, some, true, List, [], ◌∷◌, ◌==◌,
  Bool-cases, contains, string_eq, test_refl, test_eq,
}
use peer_net.Base.Dict.{lookup, NodupKeys}
use peer_net.Address.{IpAddr, SocketAddr, ip_of, ip_eq, to_canonical}
use peer_net.Config.Category.{
  PeerNetCategoryInfo, PeerNetCategories, find_category, or_default, category_of,
}

module _ (ip : IpAddr) where
  -- The category, with its limits, lists the address.
  pub record Lists (d : PeerNetCategories) (name : String) (info : PeerNetCategoryInfo)
      : Type 0 where
    pub ips : List IpAddr
    pub there : lookup name d ≡ some (ips, info)
    pub has : contains ips ip ≡ true

  later :
      (m name : String) (jps : List IpAddr) (j info : PeerNetCategoryInfo) (d : PeerNetCategories)
      → lookup m d ≡ none
      → Lists d name info
      → Lists ((m, (jps, j)) ∷ d) name info
  unfolding lookup
  later m name jps j info d fresh there = record {
    ips = there.ips;
    there = elim (Bool-cases (name == m)) [
      | inl here ↦ absurd (
          none-ne-some _
            (sym fresh ∙ ap (λ k. lookup k d) (sym (test_eq name m here)) ∙ there.there))
      | inr other ↦ rw other there.there
    ];
    has = there.has;
  }

  find_some :
      (d : PeerNetCategories) (name : String) (info : PeerNetCategoryInfo)
      → NodupKeys d
      → find_category ip d ≡ some (name, info)
      → Lists d name info
  unfolding find_category lookup
  find_some [] name info distinct found = absurd (none-ne-some _ found)
  find_some ((m, (ips, i)) ∷ d) name info (fresh, distinct) found =
      elim (Bool-cases (contains ips ip)) [
        | inl here ↦
            subst (λ t. Lists ((m, (ips, i)) ∷ d) t.0 t.1)
              (some-injective (m, i) (name, info) (rw here at found))
              (record { ips = ips; there = rw (test_refl m) refl; has = here })
        | inr other ↦
            later m name ips i info d fresh (find_some d name info distinct (rw other at found))
      ]

  find_none :
      (d : PeerNetCategories) (name : String) (info : PeerNetCategoryInfo)
      → find_category ip d ≡ none
      → Lists d name info
      → ⊥
  unfolding find_category lookup
  find_none [] name info nothing there = none-ne-some _ there.there
  find_none ((m, (ips, i)) ∷ d) name info nothing there = elim (Bool-cases (contains ips ip)) [
    | inl here ↦ some-ne-none _ (rw here at nothing)
    | inr other ↦ elim (Bool-cases (name == m)) [
      | inl same ↦
          let listed = some-injective (ips, i) (there.ips, info) (rw same at there.there) in
          false≢true (sym other ∙ ap (λ t. contains t.0 ip) listed ∙ there.has)
      | inr differ ↦
          find_none d name info (rw other at nothing)
            (record { ips = there.ips; there = rw differ at there.there; has = there.has })
    ]
  ]

  -- The two maps have the same categories.
  abbrev pub SameEntries : PeerNetCategories → PeerNetCategories → Type 0
  SameEntries d d' = (name : String) → lookup name d ≡ lookup name d'

  -- No two categories list the address.
  abbrev pub IsApart : PeerNetCategories → Type 0
  IsApart d = (m n : String) (i j : PeerNetCategoryInfo) → Lists d m i → Lists d n j → m ≡ n

  moved :
      (d d' : PeerNetCategories) (name : String) (info : PeerNetCategoryInfo)
      → SameEntries d d'
      → Lists d name info
      → Lists d' name info
  moved d d' name info same there = record {
    ips = there.ips;
    there = sym (same name) ∙ there.there;
    has = there.has;
  }

  one_entry :
      (d : PeerNetCategories) (m n : String) (i j : PeerNetCategoryInfo)
      → IsApart d
      → Lists d m i
      → Lists d n j
      → ◌≡◌ {A = Option (String × PeerNetCategoryInfo)} (some (m, i)) (some (n, j))
  one_entry d m n i j apart one two =
      let name = apart m n i j one two in
      let both : ◌≡◌ {A = Option (List IpAddr × PeerNetCategoryInfo)} (some (one.ips, i))
          (some (two.ips, j)) =
        sym one.there ∙ ap (λ k. lookup k d) name ∙ two.there in
      ap₂ (λ k t. some (k, t)) name (ap (λ t. t.1) (some-injective (one.ips, i) (two.ips, j) both))

  find_category-SameEntries :
      (d d' : PeerNetCategories)
      → NodupKeys d
      → NodupKeys d'
      → SameEntries d d'
      → IsApart d
      → find_category ip d ≡ find_category ip d'
  find_category-SameEntries d d' distinct distinct' same apart =
      go (find_category ip d) (find_category ip d') refl refl
    where
      go :
          (o o' : Option (String × PeerNetCategoryInfo))
          → find_category ip d ≡ o
          → find_category ip d' ≡ o'
          → o ≡ o'
      go none none p q = refl
      go (some (m, i)) none p q =
          absurd (find_none d' m i q (moved d d' m i same (find_some d m i distinct p)))
      go none (some (n, j)) p q =
          absurd
            (find_none d n j p (moved d' d n j (λ k. sym (same k)) (find_some d' n j distinct' q)))
      go (some (m, i)) (some (n, j)) p q =
          one_entry d m n i j apart (find_some d m i distinct p)
            (moved d' d n j (λ k. sym (same k)) (find_some d' n j distinct' q))

-- Where no two categories list the address, its category and limits do not depend on the order in
-- which the map of categories is gone through.
pub category_of-SameEntries :
    (d d' : PeerNetCategories) (default_info : PeerNetCategoryInfo) (address : SocketAddr)
    → NodupKeys d
    → NodupKeys d'
    → SameEntries (to_canonical (ip_of address)) d d'
    → IsApart (to_canonical (ip_of address)) d
    → category_of d default_info address ≡ category_of d' default_info address
unfolding category_of
category_of-SameEntries d d' default_info address distinct distinct' same apart =
    ap (or_default default_info)
      (find_category-SameEntries (to_canonical (ip_of address)) d d' distinct distinct' same apart)
