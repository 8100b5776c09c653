-- ===== src/Settings/Tests.antt =====
-- A form in which the body of a blocked request was cleared.
use karna.Common.{◌≡◌, refl, [], Bool, not, ◌&&◌, if◌then◌else◌}
use karna.Text.{Text, codes, text_eq}
use karna.Value.{
  Value, undefined, null, str, Properties, no_properties, property, get_field, to_text,
}
use karna.Settings.Defaults.{default_settings}
use karna.Settings.Config.{diff_service_config}
use karna.Settings.Config.Diff.{is_among, is_cleared, get_field-diff_service_config}

-- The texts of these configurations are the same JSON if they are equal.
abbrev same_text : Value → Value → Bool
same_text v w = text_eq (to_text v) (to_text w)

abbrev body : Text → Properties
body t = property "default_block_response_body" (str t) no_properties

diff_runs :
    get_field "default_block_response_body"
      (diff_service_config same_text (body (codes "stop")) (body []))
    ≡ null
unfolding diff_service_config get_field text_eq to_text
diff_runs = refl

get_field-diff_service_config_example :
    get_field "default_block_response_body"
      (diff_service_config same_text (body (codes "stop")) (body []))
    ≡ (if is_among "default_block_response_body" default_settings
          && not (
              same_text
                (get_field "default_block_response_body" (body (codes "stop")))
                (get_field "default_block_response_body" (body [])))
        then (if is_cleared same_text
              (body (codes "stop"))
              (body [])
              "default_block_response_body"
              (get_field "default_block_response_body" (body []))
            then null
            else get_field "default_block_response_body" (body []))
        else undefined)
get_field-diff_service_config_example =
    get_field-diff_service_config same_text (body (codes "stop")) (body [])
      "default_block_response_body"
