-- ===== src/Cloud/Sdk.antt =====
-- The commands of the AWS SDK that the scripts of commands send, each with the part of its input
-- that they choose, and the part of the replies that they read. What AWS does is an argument.
use saral.Base.{ℕ, Bool, Option, List, String}
use saral.Asset.Storage.{Attempt}
use saral.Schedule.Bridge.{ScheduleInput}

-- A statement of a policy that allows actions on one resource.
pub record Statement : Type 0 where
  pub actions : List String
  pub resource : String

pub record Launch : Type 0 where
  pub image_id : String
  pub instance_type : String
  pub min_count : ℕ
  pub max_count : ℕ
  pub key_name : String
  pub subnet_id : String
  pub security_group : String
  pub profile : String
  pub user_data : String
  pub volume_gb : ℕ

pub data Command : Type 0 where
  get_caller_identity describe_vpcs describe_images : Command
  head_bucket put_public_access_block put_bucket_encryption delete_bucket : String → Command
  create_bucket : (bucket : String) → (location : Option String) → Command
  put_lifecycle : (bucket prefix : String) → (expiry_days abort_days : ℕ) → Command
  list_objects : (bucket : String) → (max_keys : ℕ) → Command
  delete_objects : (bucket : String) → (keys : List String) → Command
  get_queue_url get_queue_arn delete_queue : String → Command
  create_queue : (name : String) → (visibility_timeout retention_period : ℕ) → Command
  set_redrive :
      (url dead_letter_arn : String) → (max_receive_count visibility_timeout : ℕ) → Command
  get_role delete_role get_instance_profile create_instance_profile : String → Command
  create_role : (name principal : String) → Command
  put_role_policy : (role policy : String) → List Statement → Command
  delete_role_policy add_role_to_profile : (first second : String) → Command
  create_schedule update_schedule : ScheduleInput → Command
  delete_schedule : String → Command
  describe_instances : (name : String) → (states : List String) → Command
  terminate_instances : List String → Command
  describe_security_groups create_security_group : (name vpc_id : String) → Command
  authorize_ingress : (group_id : String) → (port : ℕ) → (cidr : String) → Command
  describe_subnets create_key_pair : String → Command
  run_instances : Launch → Command
  create_tags : (resource name : String) → Command

-- An image, by its id and its creation date.
pub record Image : Type 0 where
  pub image_id : Option String
  pub creation_date : Option String

-- What is read of a reply: the one id, name, URL, ARN or key text that it holds, the list of those
-- that it holds, the images, and whether a listing goes on.
pub record Reply : Type 0 where
  pub value : Option String
  pub values : List (Option String)
  pub images : List Image
  pub is_truncated : Bool

-- `client.send(command)`; a rejection is the name of its error.
abbrev pub Sdk : Type 0 → Type 0
Sdk W = Command → W → W × Attempt Reply String
