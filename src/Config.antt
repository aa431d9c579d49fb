-- ===== src/Config.antt =====
-- internal/config/config.go: the configuration of the master and its defaults. Reading the file and
-- decoding YAML onto a configuration are parameters.
use brazier.Base.{Text, text, Bool, Option, none, some, [], if◌then◌else◌}

pub record ServerConfig : Type 0 where
  pub grpc_port : Text
  pub http_port : Text

pub record DbConfig : Type 0 where
  pub backend : Text
  pub sqlite_path : Text

pub record AwsSsmConfig : Type 0 where
  pub prefix : Text

pub record GcpConfig : Type 0 where
  pub project_id : Text

pub record VaultConfig : Type 0 where
  pub addr : Text
  pub mount : Text
  pub prefix : Text

pub record SecretsConfig : Type 0 where
  pub backend : Text
  pub aws_ssm : AwsSsmConfig
  pub gcp : GcpConfig
  pub vault : VaultConfig

pub record S3Config : Type 0 where
  pub bucket : Text
  pub prefix : Text
  pub endpoint : Text

pub record GcsConfig : Type 0 where
  pub bucket : Text
  pub prefix : Text

pub record ArtifactoryConfig : Type 0 where
  pub base_url : Text

pub record ArtifactsConfig : Type 0 where
  pub backend : Text
  pub local_path : Text
  pub s3 : S3Config
  pub gcs : GcsConfig
  pub artifactory : ArtifactoryConfig

pub record NomadConfig : Type 0 where
  pub addr : Text

pub record K8sConfig : Type 0 where
  pub namespace : Text
  pub image : Text

pub record RunnerConfig : Type 0 where
  pub type : Text
  pub nomad : NomadConfig
  pub k8s : K8sConfig

pub record WorkflowsConfig : Type 0 where
  pub repo_url : Text
  pub cache_dir : Text

pub record Config : Type 0 where
  pub server : ServerConfig
  pub db : DbConfig
  pub secrets : SecretsConfig
  pub artifacts : ArtifactsConfig
  pub runner : RunnerConfig
  pub workflows : WorkflowsConfig

-- `Default`; a field that is not set is empty.
abbrev pub default_config : Config
default_config = record {
  server = record { grpc_port = text "9000"; http_port = text "8080" };
  db = record { backend = text "sqlite"; sqlite_path = text "brazier.db" };
  secrets = record {
    backend = text "db";
    aws_ssm = record { prefix = [] };
    gcp = record { project_id = [] };
    vault = record { addr = []; mount = []; prefix = [] };
  };
  artifacts = record {
    backend = text "local";
    local_path = text "./artifacts";
    s3 = record { bucket = []; prefix = []; endpoint = [] };
    gcs = record { bucket = []; prefix = [] };
    artifactory = record { base_url = [] };
  };
  runner = record {
    type = text "agent";
    nomad = record { addr = [] };
    k8s = record { namespace = []; image = [] };
  };
  workflows = record { repo_url = []; cache_dir = [] };
}

-- What `os.Stat` and `os.ReadFile` find at a path, and `yaml.Unmarshal` onto a configuration.
pub record Files : Type 0 where
  pub is_missing : Text → Bool
  pub read_file : Text → Option Text
  pub unmarshal : Text → Config → Option Config

pub data Reply : Type 0 where
  config : Config → Reply
  read_failed parse_failed : Reply

abbrev pub parsed : Option Config → Reply
parsed none = parse_failed
parsed (some c) = config c

abbrev pub parse_data : Files → Option Text → Reply
parse_data files none = read_failed
parse_data files (some bytes) = parsed (files.unmarshal bytes default_config)

unfoldable pub load : Files → Text → Reply
load files path = parse_data files (files.read_file path)

unfoldable pub load_optional : Files → Text → Reply
load_optional files path = if files.is_missing path then config default_config else load files path
