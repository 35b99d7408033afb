-- ===== src/Proxies.antt =====
-- crates/paws_model/src/lib.rs: the groups of proxies and their members, as the core publishes them.
use paws.Base.{ℕ, Text, Bool, Option, List}

pub record ProxyItem : Type 0 where
  pub name : Text
  pub proxy_type : Text
  pub delay_ms : Option ℕ
  pub selected : Bool

pub record ProxyGroup : Type 0 where
  pub name : Text
  pub group_type : Text
  pub selected : Option Text
  pub fixed : Option Text
  pub proxies : List ProxyItem
