-- ===== src/Layout.antt =====
-- The addresses and sizes of common/common.h.
use stc_isp_demo.Prelude.{ℕ, ◌+◌, ◌-◌, ◌==◌, if◌then◌else◌}

-- The on-chip flash: boot loader, factory metadata, application.
abbrev pub stc_rom_size : ℕ
stc_rom_size = 0x10000

abbrev pub ldr_size : ℕ
ldr_size = 0x3800

abbrev pub factory_meta_size : ℕ
factory_meta_size = 0x200

abbrev pub app_max_size : ℕ
app_max_size = stc_rom_size - ldr_size - factory_meta_size

abbrev pub iap_addr_factory_meta : ℕ
iap_addr_factory_meta = ldr_size

abbrev pub iap_addr_app_start : ℕ
iap_addr_app_start = ldr_size + factory_meta_size

abbrev pub iap_addr_app_end : ℕ
iap_addr_app_end = iap_addr_app_start + app_max_size

-- The external flash: two copies of the update record and three application slots.
abbrev pub norflash_ota_info_size : ℕ
norflash_ota_info_size = 0x1000

abbrev pub norflash_ota_master_addr : ℕ
norflash_ota_master_addr = 0

abbrev pub norflash_ota_backup_addr : ℕ
norflash_ota_backup_addr = norflash_ota_master_addr + norflash_ota_info_size

abbrev pub norflash_app_size : ℕ
norflash_app_size = 0xF0000

abbrev pub norflash_factory_app_addr : ℕ
norflash_factory_app_addr = norflash_ota_backup_addr + norflash_ota_info_size

abbrev pub norflash_app1_addr : ℕ
norflash_app1_addr = norflash_factory_app_addr + norflash_app_size

abbrev pub norflash_app2_addr : ℕ
norflash_app2_addr = norflash_app1_addr + norflash_app_size

-- `FLASH_APP_ID_*`
abbrev pub flash_app_id_factory : ℕ
flash_app_id_factory = 0

abbrev pub flash_app_id_app1 : ℕ
flash_app_id_app1 = 1

abbrev pub flash_app_id_app2 : ℕ
flash_app_id_app2 = 2

abbrev pub flash_app_id_max : ℕ
flash_app_id_max = 2

abbrev pub get_norflash_app_addr : ℕ → ℕ
get_norflash_app_addr appid =
    if appid == flash_app_id_factory
    then norflash_factory_app_addr
    else if appid == flash_app_id_app1
    then norflash_app1_addr
    else norflash_app2_addr
