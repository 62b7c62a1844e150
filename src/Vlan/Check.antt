-- ===== src/Vlan/Check.antt =====
-- When a VLAN group is accepted, and the ids that groups are stored under.
use wireless_tsn_configurato.Base.{ℕ, ◌≤◌, ◌≡◌, ◌↔◌, refl, false, ◌++◌, arith, ap, sym, ◌∙◌, List}
use wireless_tsn_configurato.Base.Int.{ℤ, pos, negsuc, ◌≤ℤ◌}
use wireless_tsn_configurato.Base.Text.{is_empty, codes}
use wireless_tsn_configurato.Common.{ok, max_str}
use wireless_tsn_configurato.Common.StrUtil.Copy.{copied_of_lt}
use wireless_tsn_configurato.Decimal.{show_ℤ, show_ℕ}
use wireless_tsn_configurato.Decimal.Read.{length-show_ℕ, show_ℕ-injective}
use wireless_tsn_configurato.Vlan.{GroupModel, validate_group, group_id}

-- A group is accepted exactly when its VLAN id is 1 to 4094 and it has a name.
pub validate_group_iff :
    (g : GroupModel)
    → (validate_group g ≡ ok)
      ↔ ((pos 1 ≤ℤ g.vlan_id) × (g.vlan_id ≤ℤ pos 4094) × (is_empty g.name ≡ false))
unfolding validate_group
validate_group_iff g = (λ (h : validate_group g ≡ ok). ground arith, λ h. ground arith)

-- The id of a group with an accepted VLAN id is "vlan-" and the number, uncut.
group_id-uncut :
    (g : GroupModel) (n : ℕ)
    → g.vlan_id ≡ pos n
    → n ≤ 4094
    → (group_id g).id ≡ codes "vlan-" ++ show_ℕ n
unfolding group_id show_ℤ
group_id-uncut g n e h = rw e (
    copied_of_lt max_str (codes "vlan-" ++ show_ℕ n)
      (omega (arith, length-show_ℕ 4 n (omega arith) (omega arith))))

tail_path : (s t : List ℕ) → codes "vlan-" ++ s ≡ codes "vlan-" ++ t → s ≡ t
tail_path s t h = cc

number : (g : GroupModel) → validate_group g ≡ ok → (n : ℕ) × (g.vlan_id ≡ pos n) × (n ≤ 4094)
unfolding validate_group
number g h = go g.vlan_id refl
  where
    go : (v : ℤ) → g.vlan_id ≡ v → (n : ℕ) × (g.vlan_id ≡ pos n) × (n ≤ 4094)
    go (pos n) e = (n, e, ground arith)
    go (negsuc n) e = absurd (ground arith)

-- Two accepted groups are given the same id exactly when they have the same VLAN id.
pub group_id-injective :
    (g h : GroupModel)
    → validate_group g ≡ ok
    → validate_group h ≡ ok
    → ((group_id g).id ≡ (group_id h).id) ↔ (g.vlan_id ≡ h.vlan_id)
group_id-injective g h vg vh =
    let (m, em, lm) = number g vg in
    let (n, en, ln) = number h vh in
    (
      λ (p : (group_id g).id ≡ (group_id h).id).
          em
          ∙ ap pos (
              show_ℕ-injective m n (
                tail_path (show_ℕ m) (show_ℕ n)
                  (sym (group_id-uncut g m em lm) ∙ p ∙ group_id-uncut h n en ln)))
          ∙ sym en,
      λ (e : g.vlan_id ≡ h.vlan_id).
          group_id-uncut g m em lm ∙ sym (group_id-uncut h m (sym e ∙ em) lm),
    )
