-- ===== src/Startup/Version.antt =====
-- pkg/version/version.go and the handler GetVersionInformation. The variables of the package keep what
-- a command gave; Go's runtime, the commands and `strings.TrimSpace` are parameters.
use cma_ssh.Prelude.{String, string_eq, ◌<>◌, ◌==◌, if◌then◌else◌}

pub record Info : Type 0 where
  pub version : String
  pub git_commit : String
  pub build_date : String
  pub go_version : String
  pub compiler : String
  pub platform : String

-- The variables of the package.
pub record Variables : Type 0 where
  pub version : String
  pub git_commit : String
  pub build_date : String

-- Go's runtime.
pub record Go : Type 0 where
  pub go_version : String
  pub compiler : String
  pub os : String
  pub arch : String

-- `VersionInformation` of the reply
pub record VersionInformation : Type 0 where
  pub git_commit : String
  pub build_date : String
  pub go_version : String
  pub compiler : String
  pub platform : String

module _ {S : Type 0} (go : Go) (combined_output : String → S → String × S)
    (trim_space : String → String) where
  -- A variable that is empty becomes what the command prints, whether it fails or not.
  abbrev filled : String → String → S → String × S
  filled value command s =
      if value == ""
      then (let (out, t) = combined_output command s in (trim_space out, t))
      else (value, s)

  unfoldable pub get : Variables → S → (Info × Variables) × S
  get v s =
      let (commit, s₁) = filled v.git_commit "git rev-parse HEAD" s in
      let (version, s₂) = filled v.version "cat .versionfile" s₁ in
      (
        (
          record {
            version = version;
            git_commit = commit;
            build_date = v.build_date;
            go_version = go.go_version;
            compiler = go.compiler;
            platform = go.os <> "/" <> go.arch;
          },
          record v { version = version; git_commit = commit },
        ),
        s₂,
      )

  unfoldable pub get_version_information : Variables → S → (VersionInformation × Variables) × S
  get_version_information v s =
      let ((info, v'), t) = get v s in
      (
        (
          record {
            git_commit = info.git_commit;
            build_date = info.build_date;
            go_version = info.go_version;
            compiler = info.compiler;
            platform = info.platform;
          },
          v',
        ),
        t,
      )
