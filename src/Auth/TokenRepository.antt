-- ===== src/Auth/TokenRepository.antt =====
-- src/infrastructure/repositories/token/refresh-token-prisma.repository.ts, behind the reader and the
-- writer of src/domain/components/token, which only pass the calls on. The repository holds the
-- client itself, not that of a transaction.
use be.Prelude.{Bool, ◌&&◌, Option, String, ◌==◌, str_eq}
use be.Store.{
  Uuid, RefreshToken, Action, Platform, ⊤, gets, or_throw, modify, ◌>>=◌, now, unique_violation,
  record_not_found,
}

-- The key `userId_deviceId`.
abbrev pub is_of : Uuid → String → RefreshToken → Bool
is_of user_id device_id t = t.user_id == user_id && str_eq t.device_id device_id

abbrev pub token_clash : RefreshToken → RefreshToken → Bool
token_clash s t = is_of s.user_id s.device_id t

module _ ⦃p : Platform⦄ where
  unfoldable pub save : RefreshToken → Action ⊤
  save row = do
    table ← gets (λ w. w.refresh_tokens)
    table' ← or_throw (p.create token_clash row table) unique_violation
    modify (λ w. record w { refresh_tokens = table' })

  unfoldable pub find_one_by_user_id_and_device_id : Uuid → String → Action (Option RefreshToken)
  find_one_by_user_id_and_device_id user_id device_id =
      gets (λ w. p.find_first (is_of user_id device_id) w.refresh_tokens)

  unfoldable pub update : Uuid → String → String → Action ⊤
  unfolding now
  update user_id device_id token = do
    updated_at ← now
    table ← gets (λ w. w.refresh_tokens)
    table' ←
        or_throw
          (p.update (is_of user_id device_id)
            (λ t. record t { token = token; updated_at = updated_at }) table)
          record_not_found
    modify (λ w. record w { refresh_tokens = table' })

  unfoldable pub delete : Uuid → String → Action ⊤
  delete user_id device_id = do
    table ← gets (λ w. w.refresh_tokens)
    table' ← or_throw (p.delete (is_of user_id device_id) table) record_not_found
    modify (λ w. record w { refresh_tokens = table' })

  unfoldable pub delete_all : Uuid → Action ⊤
  delete_all user_id = modify (λ w. record w {
    refresh_tokens = p.delete_many (λ t. t.user_id == user_id) w.refresh_tokens;
  })
