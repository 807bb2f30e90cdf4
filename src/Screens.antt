-- ===== src/Screens.antt =====
-- The screens of src/btc_signer_gui/src/ui that hold secrets, as state machines. What a label, a
-- colour or the layout shows is left out unless it decides what happens next.
pub mod Secrets
pub mod SaveAs
pub mod Sign
