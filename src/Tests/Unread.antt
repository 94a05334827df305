-- ===== src/Tests/Unread.antt =====
-- The theorem about the options that decide nothing, at credentials and another level.
use golang_imageindex_list.Prelude.{codes, [], ◌∷◌, some, true, false, ◌≡◌}
use golang_imageindex_list.World.Unread.{as_with, IsBlind-pure}
use golang_imageindex_list.Options.{CopyOptions}
use golang_imageindex_list.Mirror.Unread.{AreBlind}
use golang_imageindex_list.Cli.Main.{Parsed, invoked, main}
use golang_imageindex_list.Cli.Unread.{parsed_as, unread_options}
use golang_imageindex_list.Tests.Values.{formats, images, image, options, world}

-- The same request with credentials, force and the level `trace`.
abbrev other : CopyOptions
other = record options {
  global = record options.global { log_level = codes "trace"; force = true; quiet = true };
  src_image = record image {
    docker = record image.docker {
      creds_option = some (codes "user:secret");
      tls_verify = some false;
    };
  };
}

images-AreBlind : AreBlind other images
images-AreBlind = record {
  warn = λ message. IsBlind-pure tt;
  default_policy = IsBlind-pure false;
  policy_from_file = λ path. IsBlind-pure false;
  new_policy_context = λ policy. IsBlind-pure policy;
  destroy = λ context. IsBlind-pure tt;
  copy_image = λ c context dest src opts. IsBlind-pure [];
  if_necessary = λ c operation times b. b;
}

abbrev request : Parsed
request = invoked options (codes "operator" ∷ [])

unread_options_example :
    main formats images (parsed_as other request) (as_with other (world [])) ≡ (
      (main formats images request (world [])).0,
      as_with other (main formats images request (world [])).1,
    )
unread_options_example = unread_options formats images images-AreBlind request (world [])
