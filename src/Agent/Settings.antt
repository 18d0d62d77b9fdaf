-- ===== src/Agent/Settings.antt =====
-- agent/internal/config/config.go: the validated configuration of one exposure.
use kube_secret_gateway.Base.{ℕ, Text, List}

pub record Auth : Type 0 where
  pub username : Text
  pub password_file : Text

pub record Target : Type 0 where
  pub key : Text
  pub path : Text
  pub mode : ℕ

pub record Exposure : Type 0 where
  pub name : Text
  pub auth : Auth
  pub interval : ℕ
  pub on_change_command : List Text
  pub targets : List Target
