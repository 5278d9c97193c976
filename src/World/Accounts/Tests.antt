-- ===== src/World/Accounts/Tests.antt =====
-- A new account, and a character of it.
use ascension_preservation.Common.{◌≡◌, refl, true, false, [], ◌∷◌, if◌then◌else◌}
use ascension_preservation.World.Accounts.{Stored, Accounts, is_global, acctdata_get, acctdata_set}
use ascension_preservation.World.Accounts.Kept.{same_owner, acctdata_get-acctdata_set}

abbrev new_accounts : Accounts
new_accounts = record { shared = []; chars = [] }

abbrev keys : Stored
keys = record { time = 5; data_of = 66 ∷ [] }

acctdata_get-acctdata_set_example :
    acctdata_get (65 ∷ []) 7 2 (acctdata_set (65 ∷ []) 9 2 keys new_accounts) ≡ (
      if same_owner (65 ∷ []) 9 (65 ∷ []) 7 2
      then keys
      else acctdata_get (65 ∷ []) 7 2 new_accounts)
acctdata_get-acctdata_set_example =
    acctdata_get-acctdata_set (65 ∷ []) (65 ∷ []) 9 7 2 keys new_accounts

config_bindings_macros : (is_global 2 ≡ true) × (is_global 3 ≡ false)
unfolding is_global
config_bindings_macros = (refl, refl)
