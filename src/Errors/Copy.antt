-- ===== src/Errors/Copy.antt =====
-- Which text administrators read.
use silo_plugin_dispatcharr.Base.{◌≡◌, ◌≢◌, ◌⊎◌, arith, string_eq, nat_eq}
use Prim.Native.String.{◌++◌ as concat}
use silo_plugin_dispatcharr.Errors.State.{
  Failure, Wording, raw_error_detail, readable_error, admin_error_detail,
}

module _ (w : Wording) where
  -- What administrators read.
  pub admin_error_detail_raw :
      (f : Failure)
      → raw_error_detail f ≢ ""
      → (admin_error_detail w f ≡ raw_error_detail f)
        ⊎ (admin_error_detail w f
            ≡ concat (readable_error w f) (concat " (" (concat (raw_error_detail f) ")")))
  unfolding admin_error_detail
  admin_error_detail_raw f ne =
      let friendly = readable_error w f in
      let raw = raw_error_detail f in
      ground (arith, string_eq.beq_iff raw "", string_eq.beq_iff raw friendly)
