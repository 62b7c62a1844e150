-- ===== src/Endpoint/Applied.antt =====
-- What a configuration leaves in the endpoint of stm32-tsn/tsn/eth_proto.c.
use wireless_tsn_configurato.Base.{
  get_or, ◌++◌, ◌≡◌, refl, true, false, ◌&&◌, ◌||◌, ltb, length, take_of_le, List, ℕ, [],
  Bool-cases, inl, inr, arith, ◌-◌, ◌≤◌,
}
use wireless_tsn_configurato.Base.Text.{str_eq, str_eq_refl}
use wireless_tsn_configurato.Frame.{read16, max_payload}
use wireless_tsn_configurato.Endpoint.{
  features, bytes32, send_frame, Net, cfg_len, handle_cfg, report_applied,
}

accepted_fits : (n : ℕ) → (ltb n cfg_len || ltb (max_payload - 4) n) ≡ false → n ≤ max_payload - 4
accepted_fits n = ground arith

-- What an accepted configuration that is new leaves behind.
unfoldable pub taken : Net → List ℕ → Net
taken s p = record s {
  payload = p;
  valid = true;
  vlan_id = read16 p 2;
  pcp = get_or p 0 0;
  preempt = get_or p 4 0;
}

pub handle_cfg_new :
    (s : Net) (p : List ℕ)
    → cfg_len ≤ length p
    → length p ≤ max_payload - 4
    → (s.valid && str_eq s.payload p) ≡ false
    → handle_cfg s p ≡ (taken s p, send_frame (taken s p) 6 (p ++ bytes32 (features (taken s p))))
unfolding handle_cfg report_applied taken
handle_cfg_new s p low high new =
    let good : (ltb (length p) cfg_len || ltb (max_payload - 4) (length p)) ≡ false =
      ground (arith, low, high) in
    rw good (rw new (rw (take_of_le (max_payload - 4) p high) refl))

-- The bridge pushes a configuration again and again: pushed a second time it changes nothing and is
-- not reported again, whatever came before and whether its length is accepted or not.
pub handle_cfg_again :
    (s : Net) (p : List ℕ) → handle_cfg (handle_cfg s p).0 p ≡ ((handle_cfg s p).0, [])
unfolding handle_cfg report_applied
handle_cfg_again s p =
    elim (Bool-cases (ltb (length p) cfg_len || ltb (max_payload - 4) (length p))) [
      | inl bad ↦ rw bad refl
      | inr good ↦ elim (Bool-cases (s.valid && str_eq s.payload p)) [
        | inl same ↦ rw good (rw same (rw same refl))
        | inr new ↦
            let fits : length p ≤ max_payload - 4 = accepted_fits (length p) good in
            rw good (rw new (rw (take_of_le (max_payload - 4) p fits) (rw (str_eq_refl p) refl)))
      ]
    ]
