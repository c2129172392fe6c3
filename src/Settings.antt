-- ===== src/Settings.antt =====
-- components/generic_main/nonvolatile.c: named settings, kept by the platform's key-value store.
pub mod Laws
pub mod Command
mod Tests
use rigcontrol.Common.{
  ℕ, suc, Bool, true, false, Option, none, some, List, [], ◌∷◌, ◌++◌, Bytes, codes, ◌==◌,
  if◌then◌else◌, str_eq,
}

-- `gm_nonvolatile_result_t`
pub data Result : Type 0 where
  gm_error gm_not_in_parameter_table gm_normal gm_secret gm_not_set : Result

-- `gm_nonvolatile_t`; all settings are strings. `restarts` is whether `call_after_set` is
-- `gm_wifi_restart`.
pub record Setting : Type 0 where
  pub name : Bytes
  pub secret : Bool
  pub explanation : Bytes
  pub restarts : Bool

abbrev pub gm_nonvolatile : List Setting
gm_nonvolatile =
    record {
      name = codes "ddns_basic_auth";
      secret = false;
      explanation =
          codes
            "send HTTP basic authentication on the first transaction with the Dynamic DNS server.\n";
      restarts = false;
    }
    ∷ record {
      name = codes "ddns_hostname";
      secret = false;
      explanation = codes "Hostname for this device to set in dynamic DNS.";
      restarts = false;
    }
    ∷ record {
      name = codes "ddns_password";
      secret = true;
      explanation = codes "Password for secure access to the dynamic DNS host.";
      restarts = false;
    }
    ∷ record {
      name = codes "ddns_provider";
      secret = false;
      explanation = codes "Name of the Dynamic DNS provider.";
      restarts = false;
    }
    ∷ record {
      name = codes "ddns_token";
      secret = true;
      explanation = codes "secret token to set in dynamic DNS.";
      restarts = false;
    }
    ∷ record {
      name = codes "ddns_username";
      secret = false;
      explanation = codes "User name for secure access to the dynamic DNS host.";
      restarts = false;
    }
    ∷ record {
      name = codes "ssid";
      secret = false;
      explanation = codes "Name of the WiFi access point";
      restarts = true;
    }
    ∷ record {
      name = codes "timezone";
      secret = false;
      explanation =
          codes "Time zone (see https://github.com/nayarsystems/posix_tz_db/blob/master/zones.csv)";
      restarts = false;
    }
    ∷ record {
      name = codes "wifi_password";
      secret = true;
      explanation = codes "Password of the WiFi access point";
      restarts = true;
    }
    ∷ []

-- `nvs_erase_key`: the new store, or one of two errors.
pub data Erased (S : Type 0) : Type 0 where
  erased : S → Erased S
  not_found failed : Erased S

-- The platform's store: `nvs_get_str` into a buffer of a size, `nvs_set_str` and `nvs_erase_key`.
pub record Nvs (S : Type 0) : Type 0 where
  pub nvs_get_str : S → Bytes → ℕ → Option Bytes
  pub nvs_set_str : S → Bytes → Bytes → Option S
  pub nvs_erase_key : S → Bytes → Erased S

-- What the list calls its coroutine with.
pub record Row : Type 0 where
  pub name : Bytes
  pub value : Bytes
  pub explanation : Bytes
  pub type : Result

-- The store, how often `gm_wifi_restart` was called, and whether ESP_ERROR_CHECK has aborted, behind
-- which nothing happens.
pub record Device (S : Type 0) : Type 0 where
  pub store : S
  pub restarts : ℕ
  pub aborted : Bool

-- The loop over the table.
unfoldable pub find_setting : List Setting → Bytes → Option Setting
unfolding str_eq
find_setting [] key = none
find_setting (p ∷ ps) key =
    let rest = find_setting ps key in if str_eq p.name key then some p else rest

module _ {S : Type 0} (nvs : Nvs S) where
  open nvs use {nvs_get_str, nvs_set_str, nvs_erase_key}

  abbrev pub row : Setting → Option Bytes → Row
  row p none = record {
    name = p.name;
    value = [];
    explanation = p.explanation;
    type = Result.gm_not_set;
  }
  row p (some value) =
      if p.secret
      then record {
        name = p.name;
        value = [];
        explanation = p.explanation;
        type = Result.gm_secret;
      }
      else record {
        name = p.name;
        value = value;
        explanation = p.explanation;
        type = Result.gm_normal;
      }

  unfoldable pub list_table : List Setting → S → List Row
  list_table [] s = []
  list_table (p ∷ ps) s = row p (nvs_get_str s p.name 1024) ∷ list_table ps s

  unfoldable pub gm_nonvolatile_list : S → List Row
  unfolding list_table
  gm_nonvolatile_list s = list_table gm_nonvolatile s

  abbrev pub value_of : Setting → Option Bytes → Result × Bytes
  value_of p none = (Result.gm_not_set, [])
  value_of p (some value) =
      if p.secret then (Result.gm_secret, value) else (Result.gm_normal, value)

  -- The result, and what is in the buffer; the buffer is left alone for an unknown name.
  unfoldable pub gm_nonvolatile_get : S → Bytes → ℕ → Result × Option Bytes
  unfolding find_setting
  gm_nonvolatile_get s key buffer_size = elim (find_setting gm_nonvolatile key) [
    | none ↦ (Result.gm_not_in_parameter_table, none)
    | some p ↦
        let (result, value) = value_of p (nvs_get_str s key buffer_size) in (result, some value)
  ]

  abbrev pub called_after_set : Setting → Device S → Device S
  called_after_set p d = if p.restarts then record d { restarts = suc d.restarts } else d

  unfoldable pub gm_nonvolatile_set : Bytes → Bytes → Device S → Device S × Result
  unfolding find_setting
  gm_nonvolatile_set key value d = elim (find_setting gm_nonvolatile key) [
    | none ↦ (d, Result.gm_not_in_parameter_table)
    | some p ↦ elim (nvs_set_str d.store key value) [
      | none ↦ (record d { aborted = true }, Result.gm_error)
      | some store ↦ (called_after_set p (record d { store = store }), Result.gm_normal)
    ]
  ]

  unfoldable pub gm_nonvolatile_erase : Bytes → Device S → Device S × Result
  unfolding find_setting
  gm_nonvolatile_erase key d = elim (find_setting gm_nonvolatile key) [
    | none ↦ (d, Result.gm_not_in_parameter_table)
    | some p ↦ elim (nvs_erase_key d.store key) [
      | erased store ↦ (called_after_set p (record d { store = store }), Result.gm_normal)
      | not_found ↦ (d, Result.gm_not_in_parameter_table)
      | failed ↦ (record d { aborted = true }, Result.gm_error)
    ]
  ]
