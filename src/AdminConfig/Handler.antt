-- ===== src/AdminConfig/Handler.antt =====
-- internal/adapter/handler/admin_config_handler.go. An answer is an HTTP status with what it shows;
-- base64 with and without padding are parameters.
use lurus_identity.Base.{
  ℕ, String, not, ◌&&◌, ◌||◌, Option, none, some, List, [], ◌∷◌, map, str_eq, ◌==◌, if◌then◌else◌,
}
use lurus_identity.Text.{Text}
use lurus_identity.Entity.Catalog.{AdminSetting}
use lurus_identity.Store.{Result, ok, err, M, pure, ◌>>=◌, try}
use lurus_identity.Auth.{Claims}
use lurus_identity.AdminConfig.{ConfigCache, get, set, load_all}

-- What the listing shows instead of a secret.
abbrev pub mask : String
mask = "••••••••"

unfoldable pub shown : AdminSetting → AdminSetting
shown st = record st { value = if st.is_secret && not (str_eq st.value "") then mask else st.value }

abbrev pub listed : Result (List AdminSetting) → M (ℕ × List AdminSetting)
listed (err _) = pure (500, [])
listed (ok settings) = pure (200, map shown settings)

unfoldable pub list_settings : M (ℕ × List AdminSetting)
unfolding shown
list_settings = try load_all >>= listed

unfoldable pub updated_by : Option Claims → String
updated_by none = "admin"
updated_by (some claims) = if str_eq claims.email "" then "admin" else claims.email

-- The loop over the items, which a failure ends.
abbrev pub then_rest :
    ConfigCache → (ConfigCache → M (ℕ × ConfigCache)) → Result ConfigCache → M (ℕ × ConfigCache)
then_rest c rest (ok c') = rest c'
then_rest c rest (err _) = pure (500, c)

unfoldable pub update_items : String → List (String × String) → ConfigCache → M (ℕ × ConfigCache)
unfolding set
update_items by [] c = pure (200, c)
update_items by ((k, value) ∷ items) c =
    let rest = λ (c' : ConfigCache). update_items by items c' in
    try (set k value by c) >>= then_rest c rest

unfoldable pub update_settings :
    Option Claims → List (String × String) → ConfigCache → M (ℕ × ConfigCache)
unfolding update_items updated_by
update_settings claims items c = update_items (updated_by claims) items c

unfoldable pub qr_key : String → Option String
qr_key t =
    if str_eq t "alipay"
    then some "qr_static_alipay"
    else if str_eq t "wechat"
    then some "qr_static_wechat"
    else if str_eq t "channel"
    then some "qr_channel_promo"
    else none

abbrev pub saved : ConfigCache → Result ConfigCache → M (ℕ × ConfigCache)
saved c (ok c') = pure (200, c')
saved c (err _) = pure (500, c)

pub data QrReply : Type 0 where
  unknown_type no_content : QrReply
  picture : String → Text → QrReply

-- The first two bytes of a JPEG.
unfoldable pub content_type : Text → String
content_type (a ∷ b ∷ _) = if a == 255 && b == 216 then "image/jpeg" else "image/png"
content_type _ = "image/png"

module _ (std_decode raw_decode : String → Option Text) where
  -- Padded base64 first.
  unfoldable pub decode_image : String → Option Text
  decode_image s = elim (std_decode s) [ some b ↦ some b | none ↦ raw_decode s ]

  abbrev pub upload_valid :
      Option Claims → String → String → Option Text → ConfigCache → M (ℕ × ConfigCache)
  upload_valid claims k image none c = pure (400, c)
  upload_valid claims k image (some _) c = try (set k image (updated_by claims) c) >>= saved c

  abbrev pub upload_to : Option Claims → Option String → String → ConfigCache → M (ℕ × ConfigCache)
  upload_to claims none image c = pure (400, c)
  upload_to claims (some k) image c = upload_valid claims k image (decode_image image) c

  unfoldable pub upload_qr_code :
      Option Claims → String → String → ConfigCache → M (ℕ × ConfigCache)
  unfolding set decode_image qr_key updated_by
  upload_qr_code claims t image c =
      if str_eq t "" || str_eq image "" then pure (400, c) else upload_to claims (qr_key t) image c

  abbrev pub served : Option Text → QrReply
  served none = no_content
  served (some b) = picture (content_type b) b

  abbrev pub answered : ConfigCache → Result (String × ConfigCache) → M (QrReply × ConfigCache)
  answered c (err _) = pure (no_content, c)
  answered c (ok (value, c')) =
      pure (if str_eq value "" then no_content else served (decode_image value), c')

  abbrev pub public_of : Option String → ConfigCache → M (QrReply × ConfigCache)
  public_of none c = pure (unknown_type, c)
  public_of (some k) c = try (get k c) >>= answered c

  unfoldable pub get_public_qr_code : String → ConfigCache → M (QrReply × ConfigCache)
  unfolding get decode_image qr_key content_type
  get_public_qr_code t c = public_of (qr_key t) c
