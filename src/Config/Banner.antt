-- ===== src/Config/Banner.antt =====
-- What `config_print_banner` of code/config/config.c writes.
use linux_process_analyzer.Prelude.{ℕ, ◌/◌, ◌*◌, Bool, [], ◌∷◌, ◌++◌, leb, if◌then◌else◌, String}
use linux_process_analyzer.Prelude.Int.{unsigned64}
use linux_process_analyzer.Prelude.Cstr.{Bytes, codes}
use linux_process_analyzer.Prelude.Strto.{decimal, decimal_ℤ}
use linux_process_analyzer.Config.{Config}

truefalse : Bool → Bytes
truefalse v = if v then codes "yes" else codes "no"

print_size : ℕ → Bytes
print_size bytes =
    if leb (1024 * 1024) bytes
    then decimal (bytes / (1024 * 1024)) ++ codes " MB"
    else if leb 1024 bytes
    then decimal (bytes / 1024) ++ codes " KB"
    else decimal bytes ++ codes " B"

line : String → Bytes → Bytes
line label value = codes label ++ (value ++ b'\n' ∷ [])

unfoldable config_print_banner : Config → Bytes
unfolding truefalse print_size line
config_print_banner c =
    line "" []
    ++ (line "=================================================" []
        ++ (line "   Process Analyzer - Active Configuration" []
            ++ (line "=================================================" []
                ++ (line " Output directory      : " c.output_dir
                    ++ (line "" []
                        ++ (line " Raw snapshots:" []
                            ++ (line "   .log file            : " (truefalse c.raw_log_enabled)
                                ++ (line "   .jsonl file          : "
                                      (truefalse c.raw_jsonl_enabled)
                                    ++ (line "   console              : "
                                          (truefalse c.raw_console_enabled)
                                        ++ (line "" []
                                            ++ (line " Compression:" []
                                                ++ (line "   compression enabled  : "
                                                      (truefalse c.compression_enabled)
                                                    ++ (line "" []
                                                        ++ (line " Metrics output:" []
                                                            ++ (line "   console              : "
                                                            (truefalse c.metrics_console_enabled)
                                                            ++ (line "   metrics.json         : "
                                                            (truefalse c.metrics_json_enabled)
                                                            ++ (line "" []
                                                            ++ (line " Log rotation:" []
                                                            ++ (line "   max file size         : " (
                                                            print_size
                                                            (unsigned64 c.max_file_size_bytes))
                                                            ++ (line "   max files             : "
                                                            (decimal_ℤ c.max_number_of_files)
                                                            ++ (line "" []
                                                            ++ (line " General options" []
                                                            ++ (line "   include self          : "
                                                            (truefalse c.include_self)
                                                            ++ (line
                                                            "================================================="
                                                            []
                                                            ++ line "" []))))))))))))))))))))))))
