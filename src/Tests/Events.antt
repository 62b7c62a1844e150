-- ===== src/Tests/Events.antt =====
-- The theorems about events and views at concrete inputs.
use wireless_tsn_configurato.Base.{◌≡◌, refl, true, false, some, [], ◌∷◌, ◌++◌, arith}
use wireless_tsn_configurato.Base.Int.{ℤ, pos}
use wireless_tsn_configurato.Base.Text.{codes, str_eq}
use wireless_tsn_configurato.Base.Table.{text_eq, has}
use wireless_tsn_configurato.Common.{ok}
use wireless_tsn_configurato.Common.StrUtil.{starts_with, strlcpy}
use wireless_tsn_configurato.Mvc.EventBus.{subscribe, publish}
use wireless_tsn_configurato.Mvc.EventBus.Delivery.{publish-subscribe}
use wireless_tsn_configurato.Mvc.Controller.{
  View, Controller, activated, deactivated, event, register_view, activate, route_event,
}
use wireless_tsn_configurato.Mvc.Controller.Switch.{activate-register_view}
use wireless_tsn_configurato.Tests.Data.{bus}

abbrev old_view : View
old_view = record { self = 1; activate = true; deactivate = true; on_event = true }

abbrev new_view : View
new_view = record { self = 2; activate = true; deactivate = false; on_event = true }

abbrev window : Controller
window = record {
  views = record { name = codes "devices"; view = old_view } ∷ [];
  active = some old_view;
}

streams_new : has (λ s. s.name) (codes "streams") window.views ≡ false
unfolding has str_eq
streams_new = refl

-- A subscription to "tsn" hears "tsn.created", after the one that hears everything.
publish-subscribe_example :
    ((subscribe bus (some (codes "tsn")) (some 9) 0).0 ≡ ok)
    × (publish
          (subscribe bus (some (codes "tsn")) (some 9) 0).1
          (some (codes "tsn.created"))
          (pos 5)
        ≡ publish bus (some (codes "tsn.created")) (pos 5)
          ++ (record { cb = 9; topic = codes "tsn.created"; payload = pos 5; userdata = 0 } ∷ []))
unfolding starts_with str_eq strlcpy
publish-subscribe_example =
    publish-subscribe bus (codes "tsn") (codes "tsn.created") 9 0 (pos 5) (omega arith)

activate-register_view_example :
    let (result, c') = register_view window (some new_view) (some (codes "streams")) in
    let (found, calls, c'') = activate {D = ℤ} c' (some (codes "streams")) in
    (result ≡ ok)
    × (found ≡ some new_view)
    × (calls ≡ deactivated 1 ∷ activated 2 ∷ [])
    × (c''.active ≡ some new_view)
    × (route_event c'' (some (codes "tsn.created")) (pos 5)
        ≡ event 2 (codes "tsn.created") (pos 5) ∷ [])
activate-register_view_example =
    activate-register_view {D = ℤ} window new_view (codes "streams") (omega arith) (omega arith)
      streams_new (codes "tsn.created") (pos 5)
