-- ===== src/Models/User.antt =====
-- apps/users/models: the accounts. The row's own creation and update times are left out.
use gechu_backend.Base.{ℕ, String, Bool, Option}

pub record Date : Type 0 where
  pub year : ℕ
  pub month : ℕ
  pub day : ℕ

pub record User : Type 0 where
  pub id : ℕ
  pub email : String
  pub nickname : String
  pub birth_date : Date
  pub profile_img_url : Option String
  pub is_adult_verified : Bool
  pub adult_verified_at : Option ℕ
  pub adult_verification_expires_at : Option ℕ
  pub is_active : Bool
  pub is_staff : Bool
  pub is_superuser : Bool
  pub deleted_at : Option ℕ
  -- the stored hash; `none` is an unusable password
  pub password : Option String
