-- ===== src/Stores/User.antt =====
-- The user store: bsg-frontend/apps/extension/stores/useUserStore.ts.
use bsg.Prelude.{Bool, true, false, Option, none, some, Text}

pub record UserState : Type 0 where
  pub is_logged_in : Bool
  pub user_id : Option Text
  pub username : Option Text
  pub email : Option Text
  pub icon_url : Option Text

abbrev pub user_store_init : UserState
user_store_init = record {
  is_logged_in = false;
  user_id = none;
  username = none;
  email = none;
  icon_url = none;
}

abbrev pub set_is_logged_in : Bool → UserState → UserState
set_is_logged_in b s = record s { is_logged_in = b }

abbrev pub set_user_id : Option Text → UserState → UserState
set_user_id id s = record s { user_id = id }

abbrev pub set_username : Option Text → UserState → UserState
set_username name s = record s { username = name }

abbrev pub set_email : Option Text → UserState → UserState
set_email email s = record s { email = email }

abbrev pub set_icon_url : Option Text → UserState → UserState
set_icon_url url s = record s { icon_url = url }

abbrev pub login_user : Text → Text → Text → Text → UserState → UserState
login_user id name email icon s = record s {
  user_id = some id;
  username = some name;
  email = some email;
  icon_url = some icon;
  is_logged_in = true;
}

abbrev pub reset_user : UserState → UserState
reset_user s = user_store_init
