-- ===== src/Cloud/Deploy.antt =====
-- commands/deployEc2.ts. The text of the cloud-init script, the order of JavaScript texts, the
-- address that checkip.amazonaws.com answers with, writeFile and setTimeout are arguments.
use saral.Base.{
  ℕ, zero, suc, Bool, true, false, ◌&&◌, Option, none, some, List, [], ◌∷◌, String, ◌==◌,
  if◌then◌else◌,
}
use Prim.Native.Char.{code}
use Prim.Native.String
use saral.Meta.Client.Paginate.{truthy}
use saral.Schedule.Bridge.{or_nothing}
use saral.Asset.Storage.{got}
use saral.Config.Env.{DriverSettings}
use saral.Cloud.Sdk.{Launch, Image, Command, Reply, Sdk}
use saral.Cloud.Action.{Action, return_it, throw_it, try_catch, ◌>>=◌, present}

abbrev pub role_name : String
role_name = "hashtag-pipeline-ec2-role"

abbrev pub profile_name : String
profile_name = "hashtag-pipeline-ec2-profile"

abbrev pub security_group_name : String
security_group_name = "hashtag-pipeline-sg"

abbrev pub key_pair_name : String
key_pair_name = "hashtag-pipeline-key"

abbrev pub instance_tag : String
instance_tag = "hashtag-pipeline-worker"

-- `s.split(':')[n]`; where there is none, the empty text, which is as falsy as `undefined`.
abbrev pub before_colon : String → String
before_colon String.[] = String.[]
before_colon (String.◌∷◌ c s) =
    let rest = before_colon s in if code c == 58 then String.[] else String.◌∷◌ c rest

abbrev pub after_colon : String → String
after_colon String.[] = String.[]
after_colon (String.◌∷◌ c s) = let rest = after_colon s in if code c == 58 then s else rest

unfoldable pub nth_part : ℕ → String → String
nth_part zero s = before_colon s
nth_part (suc n) s = nth_part n (after_colon s)

-- The image with the latest creation date, of those with an id and a date.
unfoldable pub newest_image :
    (text_lt : String → String → Bool) → List Image → Option Image → Option Image
newest_image text_lt [] best = best
newest_image text_lt (i ∷ is) best =
    let dated = truthy i.image_id && truthy i.creation_date in
    let taken = newest_image text_lt is (some i) in
    let left = newest_image text_lt is best in
    elim best [
      | none ↦ if dated then taken else left
      | some b ↦
          if dated && text_lt (or_nothing b.creation_date) (or_nothing i.creation_date)
          then taken
          else left
    ]

abbrev pub id_of : Option Image → Option String
id_of none = none
id_of (some i) = i.image_id

-- `list?.[0]`.
abbrev pub first_of : List (Option String) → Option String
first_of [] = none
first_of (v ∷ vs) = v

-- What the instance may do: reach its own bucket and its own queue.
abbrev pub access_policy : (bucket queue_arn : String) → Command
access_policy bucket queue_arn = Command.put_role_policy role_name "pipeline-access" (
    record {
      actions = "s3:PutObject" ∷ "s3:GetObject" ∷ "s3:HeadObject" ∷ [];
      resource = String.◌++◌ "arn:aws:s3:::" (String.◌++◌ bucket "/*");
    }
    ∷ record { actions = "s3:ListBucket" ∷ []; resource = String.◌++◌ "arn:aws:s3:::" bucket }
    ∷ record {
      actions =
          "sqs:ReceiveMessage" ∷ "sqs:DeleteMessage" ∷ "sqs:SendMessage" ∷ "sqs:GetQueueAttributes"
          ∷ "sqs:ChangeMessageVisibility" ∷ [];
      resource = queue_arn;
    }
    ∷ [])

abbrev pub queue_arn_of : (region account_id : String) → String
queue_arn_of region account_id =
    String.◌++◌ "arn:aws:sqs:"
      (String.◌++◌ region (String.◌++◌ ":" (String.◌++◌ account_id ":hashtag-pipeline-jobs")))

abbrev pub launch_of : (image_id subnet_id group_id profile user_data : String) → Launch
launch_of image_id subnet_id group_id profile user_data = record {
  image_id = image_id;
  instance_type = "t4g.micro";
  min_count = 1;
  max_count = 1;
  key_name = key_pair_name;
  subnet_id = subnet_id;
  security_group = group_id;
  profile = profile;
  user_data = user_data;
  volume_gb = 20;
}

-- What the script uses beside AWS.
pub record Operator (W : Type 0) : Type 0 where
  pub text_lt : String → String → Bool
  pub my_ip : Action W String
  pub write_key : String → Action W Unit
  pub pause : ℕ → W → W
  pub user_data : String

module _ {W : Type 0} (send : Sdk W) (op : Operator W) (env : DriverSettings) where
  abbrev pub create_profile : Action W Reply
  create_profile = do
    created ← send (Command.create_instance_profile profile_name)
    send (Command.add_role_to_profile profile_name role_name)

  unfoldable pub ensure_instance_profile : (account_id : String) → Action W String
  ensure_instance_profile account_id = do
    role ←
        try_catch (send (Command.get_role role_name))
          (λ e. send (Command.create_role role_name "ec2.amazonaws.com"))
    allowed ←
        send (access_policy (or_nothing env.s3_bucket) (queue_arn_of env.aws_region account_id))
    profile ← try_catch (send (Command.get_instance_profile profile_name)) (λ e. create_profile)
    return_it profile_name

  -- SSH from one address.
  unfoldable pub create_security_group : (vpc_id my_ip : String) → Action W String
  create_security_group vpc_id my_ip = do
    created ← send (Command.create_security_group security_group_name vpc_id)
    group_id ← present "failed to create security group" created.value
    opened ← send (Command.authorize_ingress group_id 22 (String.◌++◌ my_ip "/32"))
    return_it group_id

  abbrev pub group_or_create : (vpc_id my_ip : String) → Bool → Option String → Action W String
  group_or_create vpc_id my_ip true found = return_it (or_nothing found)
  group_or_create vpc_id my_ip false found = create_security_group vpc_id my_ip

  unfoldable pub ensure_security_group : (vpc_id my_ip : String) → Action W String
  unfolding create_security_group
  ensure_security_group vpc_id my_ip = do
    existing ← send (Command.describe_security_groups security_group_name vpc_id)
    group_or_create vpc_id my_ip (truthy (first_of existing.values)) (first_of existing.values)

  unfoldable pub ensure_lifecycle_rule : (bucket : String) → Action W Reply
  ensure_lifecycle_rule bucket = send (Command.put_lifecycle bucket "media/" 7 1)

  abbrev pub keep_key : Bool → Option String → Action W Unit
  keep_key true material = op.write_key (or_nothing material)
  keep_key false material = return_it tt

  -- The file is written inside of the `try`.
  unfoldable pub ensure_key_pair : Action W Unit
  ensure_key_pair =
      try_catch
        (send (Command.create_key_pair key_pair_name) >>= λ created.
          keep_key (truthy created.value) created.value)
        (λ e. return_it tt)

  unfoldable pub find_ami : Action W String
  unfolding newest_image
  find_ami = do
    images ← send Command.describe_images
    present "could not find an AMI" (id_of (newest_image op.text_lt images.images none))

  abbrev pub wait_for_profile : Action W Unit
  wait_for_profile w = (op.pause 15000 w, got tt)

  -- The tag that the instance is found by.
  abbrev pub tag_instance : (id : String) → Action W Unit
  tag_instance id = do tagged ← send (Command.create_tags id instance_tag); return_it tt

  abbrev pub tag_launched : Reply → Action W Unit
  tag_launched launched =
      present "RunInstances returned no instance" launched.value >>= tag_instance

  unfoldable pub launch : Launch → Action W Unit
  launch l = send (Command.run_instances l) >>= tag_launched

  abbrev pub account_id_of : String
  account_id_of = nth_part 4 (or_nothing env.schedule_role_arn)

  unfoldable pub deploy_fresh : Action W Unit
  unfolding ensure_lifecycle_rule ensure_instance_profile ensure_security_group ensure_key_pair
      find_ami launch nth_part
  deploy_fresh = do
    account_id ← present "could not derive the account ID" (some account_id_of)
    my_ip ← op.my_ip
    vpcs ← send Command.describe_vpcs
    vpc_id ← present "no default VPC found" (first_of vpcs.values)
    subnets ← send (Command.describe_subnets vpc_id)
    subnet_id ← present "no subnet found" (first_of subnets.values)
    expiring ← ensure_lifecycle_rule (or_nothing env.s3_bucket)
    profile ← ensure_instance_profile account_id
    group_id ← ensure_security_group vpc_id my_ip
    key ← ensure_key_pair
    image_id ← find_ami
    waited ← wait_for_profile
    launch (launch_of image_id subnet_id group_id profile op.user_data)

  -- One that is up stops the script.
  abbrev pub unless_running : List (Option String) → Action W Unit
  unless_running [] = deploy_fresh
  unless_running (id ∷ ids) = return_it tt

  abbrev pub deploy_checked : Bool → Action W Unit
  deploy_checked false = throw_it "run `pnpm aws:provision` first"
  deploy_checked true =
      send (Command.describe_instances instance_tag ("pending" ∷ "running" ∷ [])) >>= λ running.
      unless_running running.values

  unfoldable pub deploy : Action W Unit
  deploy = deploy_checked (truthy env.s3_bucket && truthy env.sqs_queue_url)
