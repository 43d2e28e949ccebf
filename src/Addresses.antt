-- ===== src/Addresses.antt =====
-- Where the panel finds the server: bsg-frontend/apps/extension/lib/config.ts. The environment's two
-- variables are those of the build, and `healthy` tells which addresses answer `/health` in time.
pub mod Stuck
use bsg.Prelude.{
  Bool, true, false, Option, none, some, List, [], ◌∷◌, if◌then◌else◌, Text, codes, text_or,
  or_else, nonempty,
}

abbrev pub production_server_url : Text
production_server_url = codes "https://api.binarysearchgang.com"

abbrev pub production_rtc_url : Text
production_rtc_url = codes "wss://api.binarysearchgang.com/ws"

abbrev pub local_rtc_url : Text
local_rtc_url = codes "ws://localhost:5001/ws"

abbrev pub local_server_urls : List Text
local_server_urls = codes "http://localhost:3600" ∷ codes "http://localhost:3000" ∷ []

-- The two keys of chrome.storage.local.
pub record StoredConfig : Type 0 where
  pub config_server_url : Option Text
  pub config_rtc_service_url : Option Text

-- The module's two variables, where `none` is undefined.
pub record Addresses : Type 0 where
  pub server_url : Option Text
  pub rtc_url : Option Text
  pub ready : Bool
  pub stored : StoredConfig

-- process.env.NEXT_PUBLIC_SERVER_URL and NEXT_PUBLIC_RTC_SERVICE_URL
pub record Env : Type 0 where
  pub server : Option Text
  pub rtc : Option Text

abbrev pub env_or : Option Text → Text → Text
env_or none d = d
env_or (some s) d = text_or s d

unfoldable pub initial : Env → StoredConfig → Addresses
initial env stored = record {
  server_url = some (env_or env.server production_server_url);
  rtc_url = some (env_or env.rtc production_rtc_url);
  ready = false;
  stored = stored;
}

-- detectLocalServerUrl: the first address that answers.
unfoldable pub detect_among : (Text → Bool) → List Text → Option Text
detect_among healthy [] = none
detect_among healthy (url ∷ urls) =
    let rest = detect_among healthy urls in if healthy url then some url else rest

-- if (result.configServerUrl) ...
abbrev pub stored_or : Option Text → Option Text → Option Text
stored_or none old = old
stored_or (some s) old = if nonempty s then some s else old

abbrev pub use_stored : Addresses → Addresses
use_stored a = record a {
  server_url = stored_or a.stored.config_server_url a.server_url;
  rtc_url = stored_or a.stored.config_rtc_service_url a.rtc_url;
}

abbrev pub use_local : Option Text → Addresses → Addresses
use_local none a = a
use_local (some url) a = record a {
  server_url = some url;
  rtc_url = some local_rtc_url;
  stored = record { config_server_url = some url; config_rtc_service_url = some local_rtc_url };
}

-- The callback of the first read of the storage, to its end.
unfoldable pub on_config : (Text → Bool) → Addresses → Addresses
unfolding detect_among
on_config healthy a = record (use_local (detect_among healthy local_server_urls) (use_stored a)) {
  ready = true;
}

-- A change of a key, with its new value.
pub data KeyChange : Type 0 where
  server_changed rtc_changed : Option Text → KeyChange

unfoldable pub on_changed : KeyChange → Addresses → Addresses
on_changed (server_changed value) a = record a {
  server_url = value;
  stored = record a.stored { config_server_url = value };
}
on_changed (rtc_changed value) a = record a {
  rtc_url = value;
  stored = record a.stored { config_rtc_service_url = value };
}

-- Without the extension's storage nothing is read, and the addresses are ready at once.
unfoldable pub start : Bool → (Text → Bool) → Env → StoredConfig → Addresses
unfolding initial on_config
start has_storage healthy env stored =
    if has_storage
    then on_config healthy (initial env stored)
    else record (initial env stored) { ready = true }
