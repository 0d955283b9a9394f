-- ===== src/Function.antt =====
-- function.rs: what a handler of an access returns, and what a write reports to the device model;
-- lib.rs: a message signalled interrupt.
use greens.Base.{ℕ, Bool, true, false}
use greens.Bar.{PciBar}

pub record PciMsiMessage : Type 0 where
  pub address : ℕ
  pub message_data : ℕ

pub data PciConfigurationUpdate : Type 0 where
  msi_message : PciMsiMessage → PciConfigurationUpdate
  msi_x_message : ℕ → PciMsiMessage → PciConfigurationUpdate
  bar_update : PciBar → PciConfigurationUpdate
  space_changed : PciConfigurationUpdate

pub data PciHandlerResult {ℓ} (A : Type ℓ) : Type ℓ where
  handled : A → PciHandlerResult A
  unhandled : PciHandlerResult A

unfoldable pub is_handled {ℓ} : {A : Type ℓ} → PciHandlerResult A → Bool
is_handled (handled a) = true
is_handled unhandled = false
