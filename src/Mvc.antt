-- ===== src/Mvc.antt =====
-- src/mvc: the event bus, the models that publish on it, and the controller of the views.
pub mod EventBus
pub mod Model
pub mod Controller
