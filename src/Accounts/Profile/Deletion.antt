-- ===== src/Accounts/Profile/Deletion.antt =====
-- A deleted account: no login, and restoring it within the retention.
use gechu_backend.Base.{
  ℕ, ◌+◌, ◌*◌, ◌≡◌, refl, ◌≤◌, ◌<◌, true, false, none, some, String, arith, Option-cases, inl, inr,
}
use gechu_backend.Core.Errors.{api, account_deactivated, ok, err}
use gechu_backend.Models.User.{User as UserRow}
use gechu_backend.Accounts.Restore.{user_by_email-update_user}
use gechu_backend.Accounts.{
  second, Accounts, Django, user_by_email, is_deactivated, check_password, authenticate_user,
  update_user, restored, after_deadline, restore_user_account,
}
use gechu_backend.Accounts.Profile.{deleted_at_time, delete_user_me, is_purged}

-- An active user who deletes the account cannot log in afterwards, whatever the password. Until the
-- retention has passed, the right password restores the account, and the login that then
-- follows returns the user as before the deletion, active and with no deletion time.
pub delete_user_me-restore_user_account :
    (django : Django) (retention_days deleted_at now : ℕ) (email password : String) (u : UserRow)
    (s : Accounts)
    → user_by_email email s.users ≡ some u
    → is_deactivated u ≡ false
    → check_password django password u ≡ true
    → now ≤ deleted_at + retention_days * (24 * 60 * 60 * second)
    → let (result, s1) = delete_user_me deleted_at u s in
      let (restored_result, s2) =
        restore_user_account django retention_days now email password s1 in
      (result ≡ ok tt)
      × ((guess : String)
          → authenticate_user django email guess s1 ≡ (err (api account_deactivated), s1))
      × (restored_result ≡ ok tt)
      × (authenticate_user django email password s2
          ≡ (ok (record u { deleted_at = none; is_active = true }), s2))
unfolding delete_user_me restore_user_account authenticate_user is_deactivated
delete_user_me-restore_user_account django retention_days deleted_at now email password u s known
      active right early =
    let gone = deleted_at_time deleted_at u in
    let found =
      user_by_email-update_user email (deleted_at_time deleted_at) s.users u (λ v. refl) known in
    let again =
      user_by_email-update_user email restored
        (update_user u.id (deleted_at_time deleted_at) s.users) gone (λ v. refl) found in
    let in_time : after_deadline now retention_days deleted_at ≡ false = ground arith in
    rw active (
      refl,
      λ guess. rw found refl,
      rw (found, right, in_time) refl,
      rw (found, right, in_time, again, right) refl,
    )

-- A row that the purge takes was deleted, and could be restored at no time after the one at hand.
pub is_purged_late :
    (retention_days now : ℕ) (u : UserRow)
    → is_purged retention_days now u ≡ true
    → (deleted_at : ℕ) × (u.deleted_at ≡ some deleted_at)
      × ((later : ℕ) → now < later → after_deadline later retention_days deleted_at ≡ true)
unfolding is_purged
is_purged_late retention_days now u h = elim (Option-cases u.deleted_at) [
  | inl e ↦ let never : false ≡ true = rw e at h in cc
  | inr (deleted_at, e) ↦ let past = rw e at h in (deleted_at, e, λ later after. ground arith)
]
