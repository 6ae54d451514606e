-- ===== src/Api/AppBundle.antt =====
-- pkg/apis/addons/v1alpha1/appbundle_types.go
use cma_ssh.Prelude.{String}
use cma_ssh.Api.Meta.{ObjectMeta}

-- A Go string with one named constant.
pub data AppBundleStatusPhase : Type 0 where
  unset_app_bundle installed_app_bundle : AppBundleStatusPhase
  other_app_bundle : String → AppBundleStatusPhase

pub record AppBundleSpec : Type 0 where
  pub image : String
  pub command : String

pub record AppBundleStatus : Type 0 where
  pub phase : AppBundleStatusPhase

pub record AppBundle : Type 0 where
  pub metadata : ObjectMeta
  pub spec : AppBundleSpec
  pub status : AppBundleStatus
